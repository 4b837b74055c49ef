-- ===== src/Audio/Write/Wait.antt =====
-- The wait of out_write_deep_buffer of audio/audio_hw.c for room in the driver's buffer.
use android_device_samsung_t.Base.{
  ℕ, zero, suc, ◌*◌, ◌≤◌, ◌<◌, ◌≡◌, refl, sym, ap, ◌∙◌, subst, ◌⊎◌, Bool, true, false, not, ◌&&◌,
  List, Option, none, some, is_some, length, if_both, if_split, ltb, if◌then◌else◌, arith,
  Bool-cases, inl, inr,
}
use android_device_samsung_t.Audio.Device.{Hal, Env, StreamOut, deep_buf}
use android_device_samsung_t.Audio.Mixer.{Status}
use android_device_samsung_t.Audio.Open.{is_ok}
use android_device_samsung_t.Audio.Start.{
  use_periods, open_pcm, start_output_stream_deep_buffer, deep_buffer_long_period_size,
  deep_buffer_short_period_size,
}
use android_device_samsung_t.Audio.Write.{
  Player, wake, started, leave_standby, pause_after_start, switched, deep_buffer_written, switch_to,
  switch_periods, kernel_frames, sleep_time, waited, wait_loop, rest_after, played,
  play_deep_buffer, out_write_deep_buffer, min_write_sleep_us,
}

module _ {D : Type 0} (e : Env) (v : Player D) where
  -- The driver plays while the writer sleeps: after a sleep of at least 5 ms it holds fewer frames,
  -- if it held any.
  abbrev pub Plays : Type 0
  Plays =
      (o : StreamOut) (d : D) (t n m : ℕ)
      → min_write_sleep_us ≤ t
      → kernel_frames e v o d ≡ some n
      → 0 < n
      → kernel_frames e v o (v.usleep t d) ≡ some m
      → m < n

  -- No time stamp, or at most the threshold in the driver.
  abbrev pub HasRoom : StreamOut → D → Type 0
  HasRoom o d =
      (kernel_frames e v o d ≡ none)
      ⊎ ((n : ℕ) × (kernel_frames e v o d ≡ some n) × (n ≤ o.write_threshold))

  sleep_time_bounds : (n : ℕ) (o : StreamOut) → min_write_sleep_us ≤ sleep_time e v n o
  sleep_time_bounds n o = ground arith

  -- The loop ends with room, from a driver that holds fewer frames than the fuel.
  abbrev Waits : StreamOut → Option D → Type 0
  Waits o r = (d : D) × (r ≡ some d) × HasRoom o d

  module _ (fuel : ℕ) (o : StreamOut) (d : D) where
    -- One round: out of the loop, or a sleep.
    round-Waits :
        (rest : ℕ → Option D) (s : Option ℕ)
        → kernel_frames e v o d ≡ s
        → ((n : ℕ) → s ≡ some n → o.write_threshold < n → Waits o (rest n))
        → Waits o (waited e v o d rest s)
    round-Waits rest none q ih = (d, refl, inl q)
    round-Waits rest (some n) q ih = elim (Bool-cases (ltb o.write_threshold n)) [
      | inl b ↦ rw b (ih n refl (ground (arith, b)))
      | inr b ↦ rw b (d, refl, inr (n, q, ground (arith, b)))
    ]

    wait_round :
        ((n : ℕ)
          → kernel_frames e v o d ≡ some n
          → o.write_threshold < n
          → Waits o (wait_loop e v fuel o (v.usleep (sleep_time e v n o) d)))
        → Waits o (wait_loop e v (suc fuel) o d)
    unfolding wait_loop
    wait_round ih =
        round-Waits (λ n. wait_loop e v fuel o (v.usleep (sleep_time e v n o) d))
          (kernel_frames e v o d) refl ih

  wait_loop-Waits :
      (plays : Plays) (fuel : ℕ) (o : StreamOut) (d : D)
      → ((n : ℕ) → kernel_frames e v o d ≡ some n → n < fuel)
      → Waits o (wait_loop e v (suc fuel) o d)
  wait_loop-Waits plays zero o d h = wait_round zero o d (λ n q t. absurd (omega (arith, h n q)))
  wait_loop-Waits plays (suc fuel) o d h = wait_round (suc fuel) o d (λ n q t.
      wait_loop-Waits plays fuel o (v.usleep (sleep_time e v n o) d) (λ m p. omega (
        arith,
        h n q,
        plays o d (sleep_time e v n o) n m (sleep_time_bounds n o) q (omega arith) p,
      )))

  -- The period and the threshold that the deep buffer uses belong together.
  abbrev pub IsPaced : StreamOut → Type 0
  IsPaced o =
      ((o.use_long_periods ≡ true) × (o.write_threshold ≡ deep_buffer_long_period_size * 2))
      ⊎ ((o.use_long_periods ≡ false) × (o.write_threshold ≡ deep_buffer_short_period_size * 4))

  -- The stream after the switch of periods.
  abbrev PacedBy : Bool → Hal → Type 0
  PacedBy long k = (o : StreamOut) × (k.deep_buf ≡ some o) × IsPaced o × (o.use_long_periods ≡ long)

  switch_to-PacedBy :
      (long now : Bool) (o : StreamOut) (h : Hal)
      → h.deep_buf ≡ some o
      → o.use_long_periods ≡ now
      → IsPaced o
      → PacedBy long (switch_to e long now o h)
  switch_to-PacedBy true true o h q u p = (o, q, p, u)
  switch_to-PacedBy true false o h q u p = (_, refl, inl (refl, refl), refl)
  switch_to-PacedBy false true o h q u p = (_, refl, inr (refl, refl), refl)
  switch_to-PacedBy false false o h q u p = (o, q, p, u)

  switch_periods-PacedBy :
      (o : StreamOut) (h : Hal)
      → h.deep_buf ≡ some o
      → IsPaced o
      → PacedBy (h.screen_off && not (is_some h.active_input)) (switch_periods e o h)
  unfolding switch_periods
  switch_periods-PacedBy o h q p =
      switch_to-PacedBy (h.screen_off && not (is_some h.active_input)) o.use_long_periods o h q refl
        p

  abbrev Paced : Hal → Type 0
  Paced k = (o : StreamOut) × (k.deep_buf ≡ some o) × IsPaced o

  use_periods-IsPaced :
      (b : Bool) (p : Option ℕ) (s : StreamOut × Hal) → IsPaced (use_periods e b p s).0
  use_periods-IsPaced true p s = inl (refl, refl)
  use_periods-IsPaced false p s = inr (refl, refl)

  abbrev Starts : Status × Hal → Type 0
  Starts (st, k) = (is_ok st ≡ false) ⊎ Paced k

  start-Paced : (o : StreamOut) (h : Hal) → Starts (start_output_stream_deep_buffer e o h)
  unfolding start_output_stream_deep_buffer open_pcm
  start-Paced o h =
      if_both Starts (e.pcm_is_ready h.next_handle)
        (inr (_, refl, use_periods-IsPaced (h.screen_off && not (is_some h.active_input)) _ _))
        (inl refl)

  leave-Paced : (k : Hal) → Paced k → Paced (leave_standby e deep_buf k k.deep_buf)
  leave-Paced k (o, q, p) = rw q (_, refl, p)

  abbrev Wakes : Bool × Hal → Type 0
  Wakes (ready, k) = (ready ≡ false) ⊎ ((ready ≡ true) × Paced k)

  started-Wakes : (st : Status) (k : Hal) → Starts (st, k) → Wakes (started e deep_buf (st, k))
  started-Wakes st k (inl f) = rw f (inl refl)
  started-Wakes st k (inr p) = if_both Wakes (is_ok st) (inr (refl, leave-Paced k p)) (inl refl)

  wake-Wakes :
      (o : StreamOut) (h : Hal)
      → h.deep_buf ≡ some o
      → (o.standby ≡ true) ⊎ IsPaced o
      → Wakes (wake e deep_buf o h)
  unfolding wake
  wake-Wakes o h q p =
      if_split Wakes o.standby {y = (true, h)}
        (λ s.
          started-Wakes (start_output_stream_deep_buffer e o h).0
            (start_output_stream_deep_buffer e o h).1 (start-Paced o h))
        (λ s. inr (refl, (o, q, paced s p)))
    where
      paced : o.standby ≡ false → (o.standby ≡ true) ⊎ IsPaced o → IsPaced o
      paced s (inl t) = cc
      paced s (inr p) = p

  -- The end of a write to a deep buffer output that runs.
  abbrev Writes : Bool → List ℕ → Hal → Option (Hal × D) → Type 0
  Writes long sound k r =
      (o : StreamOut) × (d : D) × (k.deep_buf ≡ some o)
      × IsPaced o
      × (o.use_long_periods ≡ long)
      × HasRoom o d
      × (r
          ≡ some (
            k,
            rest_after e v o.sample_rate o (length sound) (v.pcm_mmap_write o.normal sound d),
          ))

  play-Writes :
      (plays : Plays) (fuel : ℕ) (sound : List ℕ) (long : Bool) (k : Hal) (d : D)
      → ((o : StreamOut) (n : ℕ) → kernel_frames e v o d ≡ some n → n < fuel)
      → PacedBy long k
      → Writes long sound k (play_deep_buffer e v (suc fuel) sound k k.deep_buf d)
  play-Writes plays fuel sound long k d h (o, q, p, l) =
      let (d', w, room) = wait_loop-Waits plays fuel o d (h o) in
      (
        o,
        d',
        q,
        p,
        l,
        room,
        ap (λ t. play_deep_buffer e v (suc fuel) sound k t d) q ∙ ap (played e v sound k o) w,
      )

  -- With enough fuel for the frames in the driver out_write_deep_buffer returns. Either the output
  -- could not be started, and it has slept for the time of the sound, or it has handed the sound
  -- to pcm_mmap_write once, where the driver gave no time stamp or held at most the write threshold. The
  -- threshold belongs to the periods in use, which are the long ones exactly while the screen is off and
  -- no input is active. The stream runs with a period and its threshold before, or is in standby.
  pub out_write_deep_buffer-waits :
      (plays : Plays) (fuel : ℕ) (o : StreamOut) (sound : List ℕ) (h : Hal) (d : D)
      → ((o : StreamOut) (n : ℕ) → kernel_frames e v o d ≡ some n → n < fuel)
      → h.deep_buf ≡ some o
      → (o.standby ≡ true) ⊎ IsPaced o
      → let (ready, k) = wake e deep_buf o h in
        ((ready ≡ false)
          × (out_write_deep_buffer e v (suc fuel) o sound h d
              ≡ some (deep_buffer_written e o h, pause_after_start e v o.sample_rate o sound d)))
        ⊎ Writes
            (k.screen_off && not (is_some k.active_input))
            sound
            (deep_buffer_written e o h)
            (out_write_deep_buffer e v (suc fuel) o sound h d)
  unfolding out_write_deep_buffer deep_buffer_written
  out_write_deep_buffer-waits plays fuel o sound h d f q p = elim (wake-Wakes o h q p) [
    | inl n ↦ inl (n, ap (λ b. if not b then asleep else written) n)
    | inr (y, (o1, q1, p1)) ↦ inr (
        subst (Writes long sound l) (sym (ap (λ b. if not b then asleep else written) y))
          (play-Writes plays fuel sound long l d f (switched-PacedBy y o1 q1 p1)))
  ]
    where
      k : Hal
      k = (wake e deep_buf o h).1

      l : Hal
      l = deep_buffer_written e o h

      long : Bool
      long = k.screen_off && not (is_some k.active_input)

      asleep : Option (Hal × D)
      asleep = some (l, pause_after_start e v o.sample_rate o sound d)

      written : Option (Hal × D)
      written = play_deep_buffer e v (suc fuel) sound l l.deep_buf d

      switched-PacedBy :
          (wake e deep_buf o h).0 ≡ true
          → (o1 : StreamOut) → k.deep_buf ≡ some o1
          → IsPaced o1
          → PacedBy long l
      switched-PacedBy y o1 q1 p1 =
          subst (λ b. PacedBy long (if b then switched e k k.deep_buf else k)) (sym y)
            (subst (λ t. PacedBy long (switched e k t)) (sym q1)
              (switch_periods-PacedBy o1 k q1 p1))
