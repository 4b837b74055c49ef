-- ===== src/Audio/Input/Closed.antt =====
-- Input streams of audio/audio_hw.c from their opening to their closing.
use android_device_samsung_t.Base.{
  ℕ, ◌+◌, ◌≡◌, refl, sym, ap, ◌∙◌, ◌⊎◌, subst, Bool, true, false, not, Option, none, some, is_some,
  ◌==◌, ==_iff, if◌then◌else◌, List, [], ◌∷◌, ◌++◌, arith, Bool-cases, inl, inr, append_assoc,
}
use android_device_samsung_t.Audio.Mixer.{Status, ok, einval, enomem}
use android_device_samsung_t.Audio.Device.{
  Hal, Env, InDevices, StreamIn, Call, resampler_created, resampler_released, emit, put_in,
}
use android_device_samsung_t.Audio.Standby.{stop_input, do_input_standby}
use android_device_samsung_t.Audio.Standby.Frame.{call_state}
use android_device_samsung_t.Audio.Open.{AudioConfig, is_ok}
use android_device_samsung_t.Audio.Input.{
  release_resampler, create_resampler, fresh_input, open_input, adev_open_input_stream, free_in,
  free_stream, adev_close_input_stream,
}

abbrev pub in_standby : Option StreamIn → Bool
in_standby none = true
in_standby (some s) = s.standby

standby_again :
    (e : Env) (i : ℕ) (h : Hal) → in_standby (h.ins i) ≡ true → do_input_standby e i h ≡ h
unfolding do_input_standby
standby_again e i h b = at (h.ins i) b
  where
    at :
        (q : Option StreamIn)
        → in_standby q ≡ true
        → (elim q [ none ↦ h | some s ↦ if s.standby then h else stop_input e i s h ]) ≡ h
    at none b = refl
    at (some s) b = elim (Bool-cases s.standby) [ inl c ↦ simp c refl | inr c ↦ ground arith ]

ins-put_in : (i : ℕ) (s : StreamIn) (h : Hal) → (put_in i s h).ins i ≡ some s
ins-put_in i s h = rw ((==_iff i i).1 refl) refl

close-new :
    (e : Env) (i : ℕ) (s : StreamIn) (h : Hal)
    → s.standby ≡ true
    → adev_close_input_stream e i (put_in i s h)
      ≡ free_in e i (emit (release_resampler s.resampler) (put_in i s h))
unfolding adev_close_input_stream
close-new e i s h st =
    ap (λ (k : Hal). free_stream e i (k.ins i) k)
      (standby_again e i (put_in i s h) (ap in_standby (ins-put_in i s h) ∙ st))
    ∙ ap (λ q. free_stream e i q (put_in i s h)) (ins-put_in i s h)

-- Nothing is left of a stream but the calls.
abbrev pub Leaves : Hal → List Call → Hal → Type 0
Leaves h cs k =
    (k.log ≡ h.log ++ cs)
    × ((j : ℕ) → k.ins j ≡ h.ins j)
    × (k.active_input ≡ h.active_input)
    × (call_state k ≡ call_state h)

freed :
    (e : Env) (i : ℕ) (s : StreamIn) (h : Hal) (cs : List Call) (j : ℕ)
    → h.ins i ≡ none
    → (free_in e i (emit cs (put_in i s h))).ins j ≡ h.ins j
freed e i s h cs j n = elim (Bool-cases (i == j)) [
  | inl b ↦ rw b (sym n ∙ ap h.ins ((==_iff i j).0 b))
  | inr b ↦ rw b refl
]

closed-Leaves :
    (e : Env) (i : ℕ) (s : StreamIn) (h : Hal)
    → s.standby ≡ true
    → h.ins i ≡ none
    → Leaves h (release_resampler s.resampler) (adev_close_input_stream e i (put_in i s h))
closed-Leaves e i s h st n =
    subst (Leaves h (release_resampler s.resampler)) (sym (close-new e i s h st))
      (refl, (λ j. freed e i s h (release_resampler s.resampler) j n), refl, refl)

-- The calls from the opening to the closing of a stream.
abbrev pub resampler_calls : ℕ → ℕ → List Call
resampler_calls rate r =
    if rate == 48000 then [] else resampler_created r ∷ resampler_released r ∷ []

abbrev pub with_resampler : Hal → Hal
with_resampler h =
    emit (resampler_created h.next_handle ∷ []) (record h { next_handle = h.next_handle + 1 })

-- What opening a stream for a rate at address i comes to.
abbrev pub Opened : Env → ℕ → ℕ → Hal → Status × Hal → Type 0
Opened e i rate h r =
    ((r.0 ≡ ok)
      × ((s : StreamIn) × (r.1.ins i ≡ some s)
          × (s.standby ≡ true)
          × (is_some s.resampler ≡ not (rate == 48000)))
      × Leaves h (resampler_calls rate h.next_handle) (adev_close_input_stream e i r.1))
    ⊎ (is_ok r.0 ≡ false) × (r.1 ≡ h)

-- Without a resampler, and with one.
plain-Opened :
    (e : Env) (i rate : ℕ) (s : StreamIn) (h : Hal)
    → h.ins i ≡ none
    → (rate == 48000) ≡ true
    → s.standby ≡ true
    → s.resampler ≡ none
    → Opened e i rate h (ok, put_in i s h)
plain-Opened e i rate s h n b st r = inl (
  refl,
  (s, ins-put_in i s h, st, rw (r, b) refl),
  subst (λ cs. Leaves h cs (adev_close_input_stream e i (put_in i s h))) (rw (r, b) refl)
      (closed-Leaves e i s h st n),
)

resampled-Opened :
    (e : Env) (i rate : ℕ) (s : StreamIn) (h : Hal)
    → h.ins i ≡ none
    → (rate == 48000) ≡ false
    → s.standby ≡ true
    → s.resampler ≡ some h.next_handle
    → Opened e i rate h (ok, put_in i s (with_resampler h))
resampled-Opened e i rate s h n b st r =
    let (l, j, a, c) = closed-Leaves e i s (with_resampler h) st n in
    inl (
      refl,
      (s, ins-put_in i s (with_resampler h), st, rw (r, b) refl),
      (
        l
            ∙ rw (r, b)
                (append_assoc h.log (resampler_created h.next_handle ∷ [])
                  (resampler_released h.next_handle ∷ [])),
        j,
        a,
        c,
      ),
    )

open_input-Opened :
    (e : Env) (i : ℕ) (devices : InDevices) (config : AudioConfig) (h : Hal)
    → h.ins i ≡ none
    → Opened e i config.sample_rate h (open_input e i devices config h)
unfolding open_input create_resampler
open_input-Opened e i devices config h n = elim (Bool-cases (config.sample_rate == 48000)) [
  | inl b ↦
      subst opened (sym (plainly b)) (plain-Opened e i config.sample_rate plain h n b refl refl)
  | inr b ↦ elim (Bool-cases (e.resampler_created_ok h.next_handle)) [
    | inl c ↦
        subst opened (sym (made b c))
          (resampled-Opened e i config.sample_rate resampled h n b refl refl)
    | inr c ↦ subst opened (sym (unmade b c)) (inr (refl, refl))
  ]
]
  where
    opened : Status × Hal → Type 0
    opened = Opened e i config.sample_rate h

    plain : StreamIn
    plain = fresh_input e devices config none

    resampled : StreamIn
    resampled = fresh_input e devices config (some h.next_handle)

    plainly :
        (config.sample_rate == 48000) ≡ true
        → open_input e i devices config h ≡ (ok, put_in i plain h)
    plainly b = rw b refl

    made :
        (config.sample_rate == 48000) ≡ false
        → e.resampler_created_ok h.next_handle ≡ true
        → open_input e i devices config h ≡ (ok, put_in i resampled (with_resampler h))
    made b c = rw (b, c) refl

    unmade :
        (config.sample_rate == 48000) ≡ false
        → e.resampler_created_ok h.next_handle ≡ false
        → open_input e i devices config h ≡ (einval, h)
    unmade b c = rw (b, c) refl

-- adev_open_input_stream, at an address that is not in use, either fails and changes nothing, or
-- returns 0; then the stream is in standby, it has a resampler exactly if the rate is not the 48 kHz
-- of capture, and closing it leaves the input streams, the active input and the state of a call as they
-- were before the opening, with the resampler, if there was one, released.
pub adev_open_input_stream-close :
    (e : Env) (allocated : Bool) (i : ℕ) (devices : InDevices) (config : AudioConfig) (h : Hal)
    → h.ins i ≡ none
    → Opened e i config.sample_rate h (adev_open_input_stream e allocated i devices config h)
unfolding adev_open_input_stream
adev_open_input_stream-close e allocated i devices config h n = at _ allocated
  where
    at :
        (b c : Bool)
        → Opened e i config.sample_rate h (
            if b
            then (einval, h)
            else (if not c then (enomem, h) else open_input e i devices config h))
    at true c = inr (refl, refl)
    at false false = inr (refl, refl)
    at false true = open_input-Opened e i devices config h n
