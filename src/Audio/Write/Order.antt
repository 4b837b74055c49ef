-- ===== src/Audio/Write/Order.antt =====
-- What out_write_low_latency of audio/audio_hw.c hands on, and in which order.
use android_device_samsung_t.Base.{
  ℕ, zero, suc, ◌/◌, ◌≡◌, refl, ap, sym, ◌∙◌, List, [], ◌∷◌, ◌++◌, append_assoc, append-nil, map,
  Option, none, some, is_some, ◌⊎◌, inl, inr, Bool, true, false, Bool-cases, if_both, length,
}
use android_device_samsung_t.Audio.Device.{Env, StreamOut, Hal, low_latency}
use android_device_samsung_t.Audio.Open.{is_ok}
use android_device_samsung_t.Audio.Start.Pcms.{start_some}
use android_device_samsung_t.Audio.Start.{start_output_stream_low_latency}
use android_device_samsung_t.Audio.Write.{
  Player, write_pcm, write_all, wake, leave_standby, pause, frame_size, get_playback_delay,
  delay_of, primary_pcm, write_reference, rest_after, play_low_latency, out_write_low_latency,
}

-- What an output asks for.
pub data Event : Type 0 where
  wrote : ℕ → List ℕ → Event
  heard : ℕ → List ℕ → ℕ × ℕ → ℕ → Event
  slept : ℕ → Event

-- Libraries that keep what they are asked for: each PCM has its answer to a write and its time stamp.
abbrev pub recorder :
    (ℕ → ℕ) → (Option ℕ → Option (ℕ × ℕ × ℕ)) → (Option ℕ → ℕ) → Player (List Event)
recorder answers stamps sizes = record {
  htimestamp = λ p d. stamps p;
  buffer_size = λ p d. sizes p;
  pcm_write = λ p sound d. elim p [ none ↦ (0, d) | some q ↦ (answers q, d ++ wrote q sound ∷ []) ];
  pcm_mmap_write = λ p sound d. (0, d);
  echo_write = λ r sound stamp delay d. d ++ heard r sound stamp delay ∷ [];
  usleep = λ t d. d ++ slept t ∷ [];
}

-- The rest of a list after a success, nothing after an error.
abbrev pub go_on : {A : Type 0} → ℕ → List A → List A
go_on zero xs = xs
go_on (suc n) xs = []

abbrev pub first_of : ℕ → ℕ → ℕ
first_of zero m = m
first_of (suc n) m = suc n

module _ (answers : ℕ → ℕ) where
  -- The PCMs up to the first that answers with an error.
  unfoldable pub up_to_error : List ℕ → List ℕ
  up_to_error [] = []
  up_to_error (p ∷ ps) = p ∷ go_on (answers p) (up_to_error ps)

  -- The first error among the answers, 0 if there is none.
  unfoldable pub first_error : List ℕ → ℕ
  first_error [] = 0
  first_error (p ∷ ps) = first_of (answers p) (first_error ps)

module _ {D : Type 0} (e : Env) (v : Player D) where
  -- The open PCMs of an output, in the order of enum pcm_type.
  abbrev pub open_pcms : List (Option ℕ) → List ℕ
  open_pcms [] = []
  open_pcms (none ∷ ps) = open_pcms ps
  open_pcms (some p ∷ ps) = p ∷ open_pcms ps

  abbrev unless_failed : ℕ × D → (D → ℕ × D) → ℕ × D
  unless_failed (zero, d) next = next d
  unless_failed (suc n, d) next = (suc n, d)

  -- The sound goes to one PCM after the other, up to the first error.
  unfoldable pub write_each : List ℕ → List ℕ → D → ℕ × D
  write_each [] sound d = (0, d)
  write_each (p ∷ ps) sound d =
      unless_failed (v.pcm_write (some p) sound d) (λ d'. write_each ps sound d')

  -- The loop over the array, from a state in which no write has failed or one has.
  loop : List (Option ℕ) → List ℕ → ℕ × D → ℕ × D
  loop [] sound s = s
  loop (p ∷ ps) sound s = loop ps sound (write_pcm e v sound p s)

  loop_failed :
      (ps : List (Option ℕ)) (sound : List ℕ) (n : ℕ) (d : D)
      → loop ps sound (suc n, d) ≡ (suc n, d)
  unfolding loop
  loop_failed [] sound n d = refl
  loop_failed (p ∷ ps) sound n d = loop_failed ps sound n d

  after-each :
      (ps : List (Option ℕ)) (sound : List ℕ) (s : ℕ × D)
      → ((d : D) → loop ps sound (0, d) ≡ write_each (open_pcms ps) sound d)
      → loop ps sound s ≡ unless_failed s (λ d'. write_each (open_pcms ps) sound d')
  after-each ps sound (zero, d) ih = ih d
  after-each ps sound (suc n, d) ih = loop_failed ps sound n d

  loop-each :
      (ps : List (Option ℕ)) (sound : List ℕ) (d : D)
      → loop ps sound (0, d) ≡ write_each (open_pcms ps) sound d
  unfolding loop write_each
  loop-each [] sound d = refl
  loop-each (none ∷ ps) sound d = loop-each ps sound d
  loop-each (some p ∷ ps) sound d =
      after-each ps sound (v.pcm_write (some p) sound d) (loop-each ps sound)

  write_all-each :
      (o : StreamOut) (sound : List ℕ) (d : D)
      → write_all e v o sound d ≡ write_each (open_pcms (o.normal ∷ o.spdif ∷ o.hdmi ∷ [])) sound d
  unfolding write_all loop
  write_all-each o sound d = loop-each (o.normal ∷ o.spdif ∷ o.hdmi ∷ []) sound d

  -- The output is in its slot after a start.
  leave_some :
      (k : Hal) (s : Option StreamOut)
      → is_some k.low_latency ≡ true
      → is_some (leave_standby e low_latency k s).low_latency ≡ true
  leave_some k none z = z
  leave_some k (some o) z = refl

  wake-some :
      (o : StreamOut) (h : Hal)
      → h.low_latency ≡ some o
      → is_some (wake e low_latency o h).1.low_latency ≡ true
  unfolding wake
  wake-some o h q =
      if_both (λ (r : Bool × Hal). is_some r.1.low_latency ≡ true) o.standby
        (if_both (λ (r : Bool × Hal). is_some r.1.low_latency ≡ true)
          (is_ok (start_output_stream_low_latency e o h).0)
          (leave_some k k.low_latency (start_some e o h)) (start_some e o h))
        (ap is_some q)
    where
      k : Hal
      k = (start_output_stream_low_latency e o h).1

module _ (e : Env) (answers : ℕ → ℕ) (stamps : Option ℕ → Option (ℕ × ℕ × ℕ))
    (sizes : Option ℕ → ℕ) where
  abbrev pub player : Player (List Event)
  player = recorder answers stamps sizes

  abbrev pub pcms_of : StreamOut → List ℕ
  pcms_of o = open_pcms e player (o.normal ∷ o.spdif ∷ o.hdmi ∷ [])

  -- The echo canceller hears the sound first, with the time stamp and the delay of the playback.
  abbrev pub references : StreamOut → List ℕ → Option ℕ → List Event
  references o sound none = []
  references o sound (some r) =
      let (stamp, delay) = get_playback_delay e player o (length sound / frame_size e o) [] in
      heard r sound stamp delay ∷ []

  -- The pause after an error.
  abbrev pub sleeps : StreamOut → List ℕ → List Event
  sleeps o sound = slept (pause (length sound) (frame_size e o) o.sample_rate) ∷ []

  abbrev pub sleeps_after : ℕ → StreamOut → List ℕ → List Event
  sleeps_after zero o sound = []
  sleeps_after (suc n) o sound = sleeps o sound

  -- All that a write to a running output asks for.
  abbrev pub played : StreamOut → List ℕ → List Event
  played o sound =
      references o sound o.echo_reference
      ++ (map (λ p. wrote p sound) (up_to_error answers (pcms_of o))
          ++ sleeps_after (first_error answers (pcms_of o)) o sound)

  each-events :
      (ps : List ℕ) (sound : List ℕ) (d : List Event)
      → write_each e player ps sound d
        ≡ (first_error answers ps, d ++ map (λ p. wrote p sound) (up_to_error answers ps))
  unfolding write_each up_to_error first_error
  each-events [] sound d = ap (λ l. (0, l)) (sym (append-nil d))
  each-events (p ∷ ps) sound d =
      by_answer (answers p) (each-events ps sound (d ++ wrote p sound ∷ []))
    where
      d' : List Event
      d' = d ++ wrote p sound ∷ []

      by_answer :
          (n : ℕ)
          → write_each e player ps sound d'
            ≡ (first_error answers ps, d' ++ map (λ p. wrote p sound) (up_to_error answers ps))
          → unless_failed e player (n, d') (λ x. write_each e player ps sound x) ≡ (
            first_of n (first_error answers ps),
            d ++ wrote p sound ∷ map (λ p. wrote p sound) (go_on n (up_to_error answers ps)),
          )
      by_answer zero ih =
          ih ∙ ap (λ l. (first_error answers ps, l)) (append_assoc d (wrote p sound ∷ []) _)
      by_answer (suc n) ih = refl

  same_delay :
      (o : StreamOut) (frames : ℕ) (d : List Event) (t : Option (ℕ × ℕ × ℕ))
      → delay_of e player o frames d t ≡ delay_of e player o frames [] t
  same_delay o frames d none = refl
  same_delay o frames d (some x) = refl

  reference-events :
      (o : StreamOut) (sound : List ℕ) (r : Option ℕ) (d : List Event)
      → write_reference e player o sound r d ≡ d ++ references o sound r
  unfolding get_playback_delay
  reference-events o sound none d = sym (append-nil d)
  reference-events o sound (some r) d =
      ap (λ (x : (ℕ × ℕ) × ℕ). d ++ heard r sound x.0 x.1 ∷ [])
        (same_delay o (length sound / frame_size e o) d (stamps (primary_pcm e player o)))

  rest-events :
      (n : ℕ) (o : StreamOut) (sound : List ℕ) (d : List Event)
      → rest_after e player o.sample_rate o (length sound) (n, d) ≡ d ++ sleeps_after n o sound
  rest-events zero o sound d = sym (append-nil d)
  rest-events (suc n) o sound d = refl

  play-events :
      (o : StreamOut) (sound : List ℕ) (d : List Event)
      → play_low_latency e player sound (some o) d ≡ d ++ played o sound
  play-events o sound d =
      ap (λ x. rest_after e player o.sample_rate o (length sound) (write_all e player o sound x))
        (reference-events o sound o.echo_reference d)
      ∙ ap (rest_after e player o.sample_rate o (length sound)) (
          write_all-each e player o sound (d ++ heard_first)
          ∙ each-events (pcms_of o) sound (d ++ heard_first))
      ∙ rest-events (first_error answers (pcms_of o)) o sound _
      ∙ append_assoc (d ++ heard_first) _ _
      ∙ append_assoc d heard_first _
    where
      heard_first : List Event
      heard_first = references o sound o.echo_reference

  -- What out_write_low_latency asks of the PCMs, the echo canceller and the clock, in this order, for an
  -- output in its slot, whatever errno or 0 each PCM answers and whatever the time stamps are. If the
  -- output does not run and cannot be started, it pauses once, and does nothing else. Otherwise the echo
  -- canceller, if the output has one, hears the sound; then every open PCM is given the whole sound once,
  -- in the order of pcm_type, up to the first that returns an error; then, if there was an error, it
  -- pauses.
  pub out_write_low_latency-order :
      (o : StreamOut) (sound : List ℕ) (h : Hal) (d : List Event)
      → h.low_latency ≡ some o
      → let (ready, k) = wake e low_latency o h in
        let events = (out_write_low_latency e player o sound h d).1 in
        ((ready ≡ false) × (events ≡ d ++ sleeps o sound))
        ⊎ ((ready ≡ true)
            × ((p : StreamOut) × (k.low_latency ≡ some p) × (events ≡ d ++ played p sound)))
  unfolding out_write_low_latency
  out_write_low_latency-order o sound h d q = elim (Bool-cases (wake e low_latency o h).0) [
    | inl b ↦
        simp b
          (inr (refl, running (wake e low_latency o h).1.low_latency (wake-some e player o h q)))
    | inr b ↦ simp b (inl (refl, refl))
  ]
    where
      running :
          (t : Option StreamOut)
          → is_some t ≡ true
          → (p : StreamOut) × (t ≡ some p)
            × (play_low_latency e player sound t d ≡ d ++ played p sound)
      running none z = cc
      running (some p) z = (p, refl, play-events p sound d)
