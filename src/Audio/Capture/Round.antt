-- ===== src/Audio/Capture/Round.antt =====
-- A round of read_frames of audio/audio_hw.c without a resampler: the state IsReading and how it moves.
use native.Mathlib.Nat.{sub_self}
use native.Mathlib.Decide.{dec_lt}
use android_device_samsung_t.Base.{
  ℕ, zero, suc, ◌-◌, ◌≤◌, ◌<◌, ◌≡◌, refl, ◌⊎◌, inl, inr, List, [], is_some, ◌==◌, length, min, take,
  drop, length-take, take_all, subst, length-drop, take_min, drop_window, false, true, arith, sym,
  ap, ◌∙◌,
}
use android_device_samsung_t.Audio.Capture.{
  Capture, Driver, after_read, grow, given, refilled, released, read_round, get_next_buffer,
  release_buffer, next_frames, refill,
}
use android_device_samsung_t.Audio.Device.{StreamIn}
use android_device_samsung_t.Audio.Capture.Deliver.{
  prepend, ended, deliver, FillsPeriod, deliver-take, deliver_refill, deliver_error,
}

-- What reading leaves alone: the frames in the buffers of the effects and of the reference, and the
-- sizes of these buffers.
abbrev pub kept_of : StreamIn → ℕ × ℕ × ℕ × ℕ
kept_of s = (s.proc_buf_frames, s.proc_buf_size, s.ref_buf_frames, s.ref_buf_size)

module _ {A D : Type 0} where
  -- The state of a capture that reads without a resampler.
  pub record IsReading (period : ℕ) (kept : ℕ × ℕ × ℕ × ℕ) (c : Capture A D) : Type 0 where
    pub has_pcm : is_some (c.stream).pcm ≡ true
    pub has_no_resampler : is_some (c.stream).resampler ≡ false
    pub has_period : (c.stream).config.period_size ≡ period
    pub is_within : (c.stream).read_buf_frames ≤ period
    pub is_filled : ((c.stream).read_buf_frames ≡ 0) ⊎ (length c.read_buf ≡ period)
    pub has_kept : kept_of (c.stream) ≡ kept
    pub is_ok : ((c.stream).read_buf_frames ≡ 0) ⊎ (c.read_status ≡ 0)

  -- The frames of the period that are left.
  abbrev pub pending : Capture A D → List A
  pending c =
      take (c.stream).read_buf_frames
        (drop ((c.stream).config.period_size - (c.stream).read_buf_frames) c.read_buf)

  module _ (v : Driver A D) (period : ℕ) (kept : ℕ × ℕ × ℕ × ℕ) where
    pending_release :
        (k : ℕ) (c : Capture A D)
        → IsReading period kept c
        → k ≤ (c.stream).read_buf_frames
        → pending (release_buffer v k c) ≡ drop k (pending c)
    unfolding release_buffer
    pending_release k c s h =
        rw s.has_period (drop_window period (c.stream).read_buf_frames k c.read_buf h s.is_within)

    release-IsReading :
        (k : ℕ) (c : Capture A D)
        → IsReading period kept c
        → IsReading period kept (release_buffer v k c)
    unfolding release_buffer
    release-IsReading k c s = record {
      has_pcm = s.has_pcm;
      has_no_resampler = s.has_no_resampler;
      has_period = s.has_period;
      has_kept = s.has_kept;
      is_within = omega (arith, s.is_within);
      is_filled = ground (arith, s.is_filled);
      is_ok = ground (arith, s.is_ok);
    }

    next_frames_lem : (n : ℕ) (c : Capture A D) → next_frames v n c ≡ take n (pending c)
    unfolding next_frames
    next_frames_lem n c =
        take_min n (c.stream).read_buf_frames
          (drop ((c.stream).config.period_size - (c.stream).read_buf_frames) c.read_buf)

    -- What a round of read_frames does with n frames to go.
    abbrev pub Advances : ℕ → Capture A D → List A × Capture A D → Type 0
    Advances n c (xs, k) =
        IsReading period kept k
        × (((k.read_status ≡ 0)
              × (0 < length xs)
              × (length xs ≤ n)
              × (deliver v period n (pending c) c.world
                  ≡ prepend xs (deliver v period (n - length xs) (pending k) k.world)))
            ⊎ ((0 < k.read_status)
                × (xs ≡ [])
                × (deliver v period n (pending c) c.world
                    ≡ ended k.read_status (pending k) k.world)))

    length-pending :
        (c : Capture A D)
        → IsReading period kept c
        → length (pending c) ≡ (c.stream).read_buf_frames
    length-pending c s = ground (
      arith,
      s.is_filled,
      s.is_within,
      s.has_period,
      length-take (c.stream).read_buf_frames
          (drop ((c.stream).config.period_size - (c.stream).read_buf_frames) c.read_buf),
      length-drop ((c.stream).config.period_size - (c.stream).read_buf_frames) c.read_buf,
    )

    -- The frames of a period in hand.
    given-Advances :
        (n : ℕ) (c : Capture A D)
        → IsReading period kept c
        → 0 < n
        → 0 < (c.stream).read_buf_frames
        → Advances n c (next_frames v n c, release_buffer v (length (next_frames v n c)) c)
    unfolding release_buffer
    given-Advances n c s hn hr = (
      release-IsReading (length (next_frames v n c)) c s,
      inl (
        ground (arith, s.is_ok),
        omega (arith, size),
        omega (arith, size),
        rw (next_frames_lem n c, pending_release (length (take n (pending c))) c s within)
            (deliver-take v period n (pending c) c.world),
      ),
    )
      where
        size : length (next_frames v n c) ≡ min n (c.stream).read_buf_frames
        size = rw (next_frames_lem n c, length-take n (pending c)) (ap (min n) (length-pending c s))

        within : length (take n (pending c)) ≤ (c.stream).read_buf_frames
        within = omega (arith, length-take n (pending c), length-pending c s)

    all_of : (n : ℕ) (xs : List A) → length xs ≡ n → take n (drop 0 xs) ≡ xs
    all_of n xs e = rw (sym e) (take_all xs)

    no_frames : (n : ℕ) (xs : List A) → n ≡ 0 → take n xs ≡ []
    no_frames n xs e = rw e refl

    no_pending : (c : Capture A D) → (c.stream).read_buf_frames ≡ 0 → pending c ≡ []
    no_pending c h =
        no_frames (c.stream).read_buf_frames
          (drop ((c.stream).config.period_size - (c.stream).read_buf_frames) c.read_buf) h

    round_given :
        (n : ℕ) (c : Capture A D)
        → IsReading period kept c
        → 0 < (c.stream).read_buf_frames
        → read_round v n c ≡ released v (given v n c)
    unfolding read_round get_next_buffer
    round_given n c s hr = simp (s.has_no_resampler, s.has_pcm, ne) refl
      where
        ne : ((c.stream).read_buf_frames == 0) ≡ false
        ne = ground arith

    round_refilled :
        (n : ℕ) (c : Capture A D)
        → IsReading period kept c
        → (c.stream).read_buf_frames ≡ 0
        → read_round v n c ≡ released v (refilled v n (refill v c))
    unfolding read_round get_next_buffer
    round_refilled n c s hr = simp (s.has_no_resampler, s.has_pcm, eq) refl
      where
        eq : ((c.stream).read_buf_frames == 0) ≡ true
        eq = ground arith

    refill_lem :
        (c : Capture A D) (r : ℕ × List A × D)
        → IsReading period kept c
        → v.pcm_read period c.world ≡ r
        → refill v c ≡ after_read v (grow v (c.stream)) c r
    unfolding refill
    refill_lem c r s e = rw s.has_period (rw e refl)

    grow_lem :
        (s : StreamIn)
        → ((grow v s).pcm ≡ s.pcm)
          × ((grow v s).resampler ≡ s.resampler)
          × ((grow v s).config ≡ s.config)
          × ((grow v s).read_buf_frames ≡ s.read_buf_frames)
          × (kept_of (grow v s) ≡ kept_of s)
    grow_lem s = ground arith

    filled-IsReading :
        (c : Capture A D) (q : List A) (d : D)
        → IsReading period kept c
        → length q ≡ period
        → IsReading period kept (after_read v (grow v (c.stream)) c (0, q, d))
    filled-IsReading c q d s e = record {
      has_pcm = rw (grow_lem (c.stream)).0 s.has_pcm;
      has_no_resampler = rw (grow_lem (c.stream)).1 s.has_no_resampler;
      has_period = rw (grow_lem (c.stream)).2 s.has_period;
      has_kept = (grow_lem (c.stream)).4 ∙ s.has_kept;
      is_within = rw (grow_lem (c.stream)).2 (omega (arith, s.has_period));
      is_filled = inr e;
      is_ok = inr refl;
    }

    failed-IsReading :
        (c : Capture A D) (e : ℕ) (q : List A) (d : D)
        → IsReading period kept c
        → (c.stream).read_buf_frames ≡ 0
        → IsReading period kept (after_read v (grow v (c.stream)) c (suc e, q, d))
    failed-IsReading c e q d s z = record {
      has_pcm = rw (grow_lem (c.stream)).0 s.has_pcm;
      has_no_resampler = rw (grow_lem (c.stream)).1 s.has_no_resampler;
      has_period = rw (grow_lem (c.stream)).2 s.has_period;
      has_kept = (grow_lem (c.stream)).4 ∙ s.has_kept;
      is_within = rw (grow_lem (c.stream)).3 (omega (arith, z));
      is_filled = inl (rw (grow_lem (c.stream)).3 z);
      is_ok = inl (rw (grow_lem (c.stream)).3 z);
    }

    -- The pending frames of a stream that has read a period are that period.
    pending_filled :
        (c : Capture A D) (q : List A) (d : D)
        → IsReading period kept c
        → length q ≡ period
        → pending (after_read v (grow v (c.stream)) c (0, q, d)) ≡ q
    pending_filled c q d s e =
        rw ((grow_lem (c.stream)).2, s.has_period, sub_self period) (all_of period q e)

    -- A round is the same from a state with the same frames to come.
    Advances-from :
        (n : ℕ) (c k : Capture A D) (r : List A × Capture A D)
        → deliver v period n (pending c) c.world ≡ deliver v period n (pending k) k.world
        → Advances n k r
        → Advances n c r
    Advances-from n c k (xs, l) e (s, inl (z, a, b, f)) = (s, inl (z, a, b, e ∙ f))
    Advances-from n c k (xs, l) e (s, inr (z, a, f)) = (s, inr (z, a, e ∙ f))

    refill-Advances :
        (n : ℕ) (c : Capture A D) (r : ℕ × List A × D)
        → FillsPeriod v period
        → IsReading period kept c
        → 0 < period
        → 0 < n
        → (c.stream).read_buf_frames ≡ 0
        → v.pcm_read period c.world ≡ r
        → Advances n c (released v (refilled v n (after_read v (grow v (c.stream)) c r)))
    unfolding release_buffer
    refill-Advances n c (zero, q, d) fills s hp hn hr e =
        Advances-from n c k (next_frames v n k, release_buffer v (length (next_frames v n k)) k)
          first (given-Advances n k (filled-IsReading c q d s full) hn positive)
      where
        k : Capture A D
        k = after_read v (grow v (c.stream)) c (0, q, d)

        full : length q ≡ period
        full = subst (λ (r : ℕ × List A × D). r.0 ≡ 0 → length r.1 ≡ period) e (fills c.world) refl

        positive : 0 < (grow v (c.stream)).config.period_size
        positive = rw ((grow_lem (c.stream)).2, s.has_period) hp

        first : deliver v period n (pending c) c.world ≡ deliver v period n (pending k) d
        first =
            rw (no_pending c hr, pending_filled c q d s full)
              (deliver_refill v period n c.world d q hn (omega (arith, full)) e)
    refill-Advances n c (suc e, q, d) fills s hp hn hr eq = (
      release-IsReading 0 k (failed-IsReading c e q d s hr),
      inr (
        omega arith,
        refl,
        rw (no_pending c hr, no_pending (release_buffer v 0 k) drained)
            (deliver_error v period n (suc e) c.world d q hn (omega arith) eq),
      ),
    )
      where
        k : Capture A D
        k = after_read v (grow v (c.stream)) c (suc e, q, d)

        drained : (grow v (c.stream)).read_buf_frames - 0 ≡ 0
        drained = omega (arith, hr, (grow_lem (c.stream)).3)

    pub round-Advances :
        (n : ℕ) (c : Capture A D)
        → FillsPeriod v period
        → IsReading period kept c
        → 0 < period
        → 0 < n
        → Advances n c (read_round v n c)
    round-Advances n c fills s hp hn = elim (dec_lt 0 (c.stream).read_buf_frames) [
      | yes h ↦ subst (Advances n c) (sym (round_given n c s h)) (given-Advances n c s hn h)
      | no h ↦
          subst (Advances n c)
            (sym (
              round_refilled n c s (omega arith)
              ∙ ap (λ k. released v (refilled v n k))
                  (refill_lem c (v.pcm_read period c.world) s refl)))
            (refill-Advances n c (v.pcm_read period c.world) fills s hp hn (omega arith) refl)
    ]
