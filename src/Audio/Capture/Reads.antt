-- ===== src/Audio/Capture/Reads.antt =====
-- read_frames of audio/audio_hw.c without a resampler: what it returns, and when.
use android_device_samsung_t.Base.{
  ℕ, zero, suc, ◌-◌, ◌≤◌, ◌<◌, ◌≡◌, refl, ◌⊎◌, inl, inr, List, [], ◌∷◌, ◌++◌, Option, some, is_zero,
  ltb, if◌then◌else◌, length, length-append, append_assoc, append-nil, false, true, arith, sym, ap,
  ◌∙◌, subst,
}
use mathlib.Core.Path.{subst₂}
use native.Mathlib.Decide.{dec_lt}
use android_device_samsung_t.Audio.Capture.{
  Capture, Driver, Frames, count, failed, read_loop, read_frames, read_round,
}
use android_device_samsung_t.Audio.Capture.Deliver.{
  Reads, arrived, rest_of, deliver, prepend, ended, FillsPeriod,
}
use android_device_samsung_t.Audio.Capture.Round.{pending, IsReading, Advances, round-Advances}

module _ {A D : Type 0} where
  -- What read_frames makes of a run: the number of frames or the error.
  abbrev pub result : Reads A D → Frames
  result o = if is_zero o.status then count (length o.frames) else failed o.status

  -- The frames of a run come after those that the buffer has.
  abbrev answer : List A → Reads A D → Capture A D → Frames × List A × Capture A D
  answer written o k = (result (prepend written o), written ++ o.frames, k)

  module _ (v : Driver A D) (fuel frames : ℕ) (written : List A) (c : Capture A D) where
    loop_done :
        length written ≡ frames
        → read_loop v (suc fuel) frames written c ≡ some (count (length written), written, c)
    unfolding read_loop
    loop_done h = simp at_end refl
      where
        at_end : ltb (length written) frames ≡ false
        at_end = ground (arith, h)

    loop_fails :
        length written < frames
        → is_zero (read_round v (frames - length written) c).1.read_status ≡ false
        → read_loop v (suc fuel) frames written c
          ≡ some (
            failed (read_round v (frames - length written) c).1.read_status,
            written ++ (read_round v (frames - length written) c).0,
            (read_round v (frames - length written) c).1,
          )
    unfolding read_loop
    loop_fails h z = simp (more, z) refl
      where
        more : ltb (length written) frames ≡ true
        more = ground (arith, h)

    loop_continues :
        length written < frames
        → is_zero (read_round v (frames - length written) c).1.read_status ≡ true
        → read_loop v (suc fuel) frames written c
          ≡ read_loop v fuel frames
              (written ++ (read_round v (frames - length written) c).0)
              (read_round v (frames - length written) c).1
    unfolding read_loop
    loop_continues h z = simp (more, z) refl
      where
        more : ltb (length written) frames ≡ true
        more = ground (arith, h)

  module _ (v : Driver A D) (period : ℕ) (kept : ℕ × ℕ × ℕ × ℕ) (fills : FillsPeriod v period)
      (hp : 0 < period) where
    -- The loop ends in a state that goes on where the run of reads ends.
    abbrev pub Ends : Option (Frames × List A × Capture A D) → List A → Reads A D → Type 0
    Ends r written o =
        (k : Capture A D) × IsReading period kept k
        × (r ≡ some (answer written o k))
        × (pending k ≡ o.pending)
        × (k.world ≡ o.world)

    deliver_end : (n : ℕ) (q : List A) (d : D) → n ≡ 0 → deliver v period n q d ≡ ended 0 q d
    unfolding deliver
    deliver_end n q d e = rw e refl

    -- A run whose first frames are xs, after xs.
    Ends-after :
        (r : Option (Frames × List A × Capture A D)) (written xs : List A) (o : Reads A D)
        → Ends r (written ++ xs) o
        → Ends r written (prepend xs o)
    Ends-after r written xs o (k, s, e, p, w) = (
      k,
      s,
      e
          ∙ ap (λ zs. some (if is_zero o.status then count (length zs) else failed o.status, zs, k))
              (append_assoc written xs o.frames),
      p,
      w,
    )

    -- After a round: the rest of the loop, or its end.
    not_zero : (n : ℕ) → 0 < n → is_zero n ≡ false
    not_zero zero h = absurd (omega arith)
    not_zero (suc n) h = refl

    round-Ends :
        (fuel frames : ℕ) (written : List A) (c : Capture A D)
        → length written < frames
        → ((xs : List A) (k : Capture A D)
            → IsReading period kept k
            → 0 < length xs
            → length xs ≤ frames - length written
            → Ends
                (read_loop v fuel frames (written ++ xs) k)
                (written ++ xs)
                (deliver v period (frames - length written - length xs) (pending k) k.world))
        → Advances v period kept
            (frames - length written)
            c
            (read_round v (frames - length written) c)
        → Ends
            (read_loop v (suc fuel) frames written c)
            written
            (deliver v period (frames - length written) (pending c) c.world)
    round-Ends fuel frames written c l ih (s, inl (z, pos, le, e)) =
        subst₂ (λ r o. Ends r written o)
          (sym (loop_continues v fuel frames written c l (rw z refl))) (sym e)
          (Ends-after _ written r.0 _ (ih r.0 r.1 s pos le))
      where
        r : List A × Capture A D
        r = read_round v (frames - length written) c
    round-Ends fuel frames written c l ih (s, inr (pos, z, e)) = rw e (
      r.1,
      s,
      loop_fails v fuel frames written c l (not_zero r.1.read_status pos)
          ∙ (rw (not_zero r.1.read_status pos)
              (ap (λ xs. some (failed r.1.read_status, written ++ xs, r.1)) z)),
      refl,
      refl,
    )
      where
        r : List A × Capture A D
        r = read_round v (frames - length written) c

    loop-Ends :
        (fuel frames : ℕ) (written : List A) (c : Capture A D)
        → IsReading period kept c
        → length written ≤ frames
        → frames - length written < fuel
        → Ends
            (read_loop v fuel frames written c)
            written
            (deliver v period (frames - length written) (pending c) c.world)
    loop-Ends zero frames written c s h g = absurd (omega arith)
    loop-Ends (suc fuel) frames written c s h g = elim (dec_lt (length written) frames) [
      | yes l ↦
          round-Ends fuel frames written c l
            (λ xs k t p m.
              subst
                (λ n.
                  Ends (read_loop v fuel frames (written ++ xs) k) (written ++ xs)
                    (deliver v period n (pending k) k.world))
                (omega (arith, length-append written xs))
                (loop-Ends fuel frames (written ++ xs) k t (omega (arith, length-append written xs))
                  (omega (arith, length-append written xs))))
            (round-Advances v period kept (frames - length written) c fills s hp (omega arith))
      | no l ↦ rw (deliver_end (frames - length written) (pending c) c.world (omega arith)) (
        c,
        s,
        loop_done v fuel frames written c (omega arith)
            ∙ ap (λ zs. some (count (length zs), zs, c)) (sym (append-nil written)),
        refl,
        refl,
      )
    ]

    abbrev IsWhole : ℕ → Reads A D → Type 0
    IsWhole n o = (is_zero o.status ≡ false) ⊎ (length o.frames ≡ n)

    prepend-IsWhole :
        (n : ℕ) (x : A) (o : Reads A D) → IsWhole n o → IsWhole (suc n) (prepend (x ∷ []) o)
    prepend-IsWhole n x o (inl h) = inl h
    prepend-IsWhole n x o (inr h) = inr (ap suc h)

    arrived-IsWhole :
        (n : ℕ) (d : D) (r : ℕ × List A × D)
        → v.pcm_read period d ≡ r
        → ((q : List A) (d' : D) → IsWhole n (deliver v period n q d'))
        → IsWhole (suc n) (arrived r.0 r.1 r.2 (deliver v period n (rest_of r.1) r.2))
    arrived-IsWhole n d (suc e, q, d') eq ih = inl refl
    arrived-IsWhole n d (zero, x ∷ q, d') eq ih =
        prepend-IsWhole n x (deliver v period n q d') (ih q d')
    arrived-IsWhole n d (zero, [], d') eq ih = absurd (omega (arith, none_read))
      where
        none_read : 0 ≡ period
        none_read = subst (λ (r : ℕ × List A × D). r.0 ≡ 0 → length r.1 ≡ period) eq (fills d) refl

    deliver-IsWhole : (n : ℕ) (q : List A) (d : D) → IsWhole n (deliver v period n q d)
    unfolding deliver
    deliver-IsWhole zero q d = inr refl
    deliver-IsWhole (suc n) [] d =
        arrived-IsWhole n d (v.pcm_read period d) refl (deliver-IsWhole n)
    deliver-IsWhole (suc n) (x ∷ q) d =
        prepend-IsWhole n x (deliver v period n q d) (deliver-IsWhole n q d)

    -- From a stream that reads without a resampler, and with enough fuel, read_frames returns the frames
    -- that a reader of one frame at a time gets, in their order, and their number, which is the one asked
    -- for, or the errno of the first pcm_read that fails, with the frames before it. The stream
    -- afterwards has the frames that this reader has not had, and reads without a resampler.
    pub read_frames-deliver :
        (fuel frames : ℕ) (c : Capture A D)
        → IsReading period kept c
        → frames < fuel
        → (k : Capture A D) × IsReading period kept k
          × (read_frames v fuel frames c
              ≡ some (
                result (deliver v period frames (pending c) c.world),
                (deliver v period frames (pending c) c.world).frames,
                k,
              ))
          × (pending k ≡ (deliver v period frames (pending c) c.world).pending)
          × (k.world ≡ (deliver v period frames (pending c) c.world).world)
          × ((is_zero (deliver v period frames (pending c) c.world).status ≡ false)
              ⊎ (length (deliver v period frames (pending c) c.world).frames ≡ frames))
    unfolding read_frames
    read_frames-deliver fuel frames c s h =
        (end.0, end.1, end.2, end.3, end.4, deliver-IsWhole frames (pending c) c.world)
      where
        end : Ends (read_loop v fuel frames [] c) [] (deliver v period frames (pending c) c.world)
        end =
            subst
              (λ n. Ends (read_loop v fuel frames [] c) [] (deliver v period n (pending c) c.world))
              (omega arith) (loop-Ends fuel frames [] c s (omega arith) (omega arith))
