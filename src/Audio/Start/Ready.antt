-- ===== src/Audio/Start/Ready.antt =====
-- The PCMs that start_output_stream_low_latency of audio/audio_hw.c finds not ready.
use android_device_samsung_t.Base.{
  and_true, and_false, ℕ, ◌≡◌, refl, ap, Bool, true, none, some, Bool-cases, if◌then◌else◌, inl,
  inr, Option, ◌&&◌, ◌∙◌, ap₂, false, [], ◌∷◌, if_both,
}
use android_device_samsung_t.Audio.Device.{
  pcm_closed, Hal, Env, StreamOut, pcm_normal, pcm_spdif, pcm_hdmi, emit, PcmType,
}
use android_device_samsung_t.Audio.Start.{
  open_tones, close_unready, pcm_of, put_pcm, open_tone_normal, open_tone_spdif, open_tone_hdmi,
  open_pcm, hdmi_free, not_a_dock,
}

-- A PCM is ready, or there is none.
abbrev pub is_ready : Env → Option ℕ → Bool
is_ready e none = true
is_ready e (some p) = e.pcm_is_ready p

abbrev pub if_ready : Env → Option ℕ → Option ℕ
if_ready e none = none
if_ready e (some p) = if e.pcm_is_ready p then some p else none

abbrev pub all_ready : Env → StreamOut → Bool
all_ready e o = is_ready e o.normal && (is_ready e o.spdif && is_ready e o.hdmi)

abbrev pub pcms : StreamOut → Option ℕ × Option ℕ × Option ℕ
pcms o = (o.normal, o.spdif, o.hdmi)

abbrev pub ready_pcms : Env → StreamOut → Option ℕ × Option ℕ × Option ℕ
ready_pcms e o = (if_ready e o.normal, if_ready e o.spdif, if_ready e o.hdmi)

put_same : (t : PcmType) (o : StreamOut) → o ≡ put_pcm t (pcm_of t o) o
put_same pcm_normal o = refl
put_same pcm_spdif o = refl
put_same pcm_hdmi o = refl

-- A round of the loop that closes what is not ready.
pub close_unready-ready :
    (e : Env) (t : PcmType) (b : Bool) (o : StreamOut) (h : Hal)
    → ((close_unready e t (b, o, h)).0 ≡ (b && is_ready e (pcm_of t o)))
      × ((close_unready e t (b, o, h)).1 ≡ put_pcm t (if_ready e (pcm_of t o)) o)
unfolding close_unready
close_unready-ready e t b o h = at (pcm_of t o) refl
  where
    kept : (q : Option ℕ) → pcm_of t o ≡ q → o ≡ put_pcm t q o
    kept q g = put_same t o ∙ ap (λ x. put_pcm t x o) g

    at :
        (q : Option ℕ)
        → pcm_of t o ≡ q
        → (λ (r : Bool × StreamOut × Hal).
              (r.0 ≡ (b && is_ready e q)) × (r.1 ≡ put_pcm t (if_ready e q) o))
            (elim q [
              | none ↦ (b, o, h)
              | some p ↦
                  if e.pcm_is_ready p
                  then (b, o, h)
                  else (false, put_pcm t none o, emit (pcm_closed (some p) ∷ []) h)
            ])
    at none g = (and_true b, kept none g)
    at (some p) g = elim (Bool-cases (e.pcm_is_ready p)) [
      | inl r ↦ simp r (and_true b, kept (some p) g)
      | inr r ↦ simp r (and_false b, refl)
    ]

-- The loop over the types.
unfoldable pub closed_all : Env → StreamOut × Hal → Bool × StreamOut × Hal
closed_all e (o, h) =
    close_unready e pcm_hdmi (close_unready e pcm_spdif (close_unready e pcm_normal (true, o, h)))

and_three : (a b c : Bool) → ((true && a) && b) && c ≡ a && (b && c)
and_three true true c = refl
and_three true false c = refl
and_three false b c = refl

pub closed_all-ready :
    (e : Env) (o : StreamOut) (h : Hal)
    → ((closed_all e (o, h)).0 ≡ all_ready e o)
      × (pcms (closed_all e (o, h)).1 ≡ ready_pcms e o)
      × ((closed_all e (o, h)).1.standby ≡ o.standby)
unfolding closed_all
closed_all-ready e o h = (
  c.0
      ∙ ap₂ ◌&&◌ (b.0 ∙ ap₂ ◌&&◌ a.0 (ap (λ (x : StreamOut). is_ready e x.spdif) a.1)) (
          ap (λ (x : StreamOut). is_ready e x.hdmi) b.1
          ∙ ap (λ (x : StreamOut). is_ready e x.hdmi) a.1)
      ∙ and_three (is_ready e o.normal) (is_ready e o.spdif) (is_ready e o.hdmi),
  ap pcms c.1
      ∙ ap (λ (x : StreamOut). (x.normal, x.spdif, if_ready e x.hdmi)) b.1
      ∙ ap (λ (x : StreamOut). (x.normal, if_ready e x.spdif, if_ready e x.hdmi)) a.1,
  ap (λ (x : StreamOut). x.standby) c.1
      ∙ ap (λ (x : StreamOut). x.standby) b.1
      ∙ ap (λ (x : StreamOut). x.standby) a.1,
)
  where
    r : Bool × StreamOut × Hal
    r = close_unready e pcm_normal (true, o, h)

    r' : Bool × StreamOut × Hal
    r' = close_unready e pcm_spdif r

    a : (r.0 ≡ (true && is_ready e o.normal)) × (r.1 ≡ put_pcm pcm_normal (if_ready e o.normal) o)
    a = close_unready-ready e pcm_normal true o h

    b :
        (r'.0 ≡ (r.0 && is_ready e r.1.spdif))
        × (r'.1 ≡ put_pcm pcm_spdif (if_ready e r.1.spdif) r.1)
    b = close_unready-ready e pcm_spdif r.0 r.1 r.2

    c :
        ((close_unready e pcm_hdmi r').0 ≡ (r'.0 && is_ready e r'.1.hdmi))
        × ((close_unready e pcm_hdmi r').1 ≡ put_pcm pcm_hdmi (if_ready e r'.1.hdmi) r'.1)
    c = close_unready-ready e pcm_hdmi r'.0 r'.1 r'.2

pub open_tones-standby : (s : StreamOut × Hal) → (open_tones s).0.standby ≡ s.0.standby
unfolding open_tones open_tone_normal open_tone_spdif open_tone_hdmi open_pcm
open_tones-standby s =
    if_both (λ (k : StreamOut × Hal). k.0.standby ≡ s2.0.standby) (hdmi_free s2.1) refl refl
    ∙ if_both (λ (k : StreamOut × Hal). k.0.standby ≡ s1.0.standby)
        (s1.1.out_device.dgtl_dock_headset) refl refl
    ∙ if_both (λ (k : StreamOut × Hal). k.0.standby ≡ s.0.standby) (not_a_dock s.1.out_device) refl
        refl
  where
    s1 : StreamOut × Hal
    s1 = open_tone_normal s

    s2 : StreamOut × Hal
    s2 = open_tone_spdif s1
