-- ===== src/Audio/Capture/Deliver.antt =====
-- read_frames of audio/audio_hw.c without a resampler, against a queue of frames.
use android_device_samsung_t.Base.{
  ℕ, zero, suc, ◌-◌, ◌<◌, ◌≡◌, refl, List, [], ◌∷◌, ◌++◌, is_zero, length, take, drop, append_assoc,
  false, arith, sym, ap, ◌∙◌,
}
use android_device_samsung_t.Audio.Capture.{Driver}

-- A run of reads: the errno, the frames, what is left of the period, the state of the driver.
pub record Reads (A D : Type 0) : Type 0 where
  pub status : ℕ
  pub frames : List A
  pub pending : List A
  pub world : D

abbrev pub rest_of : {A : Type 0} → List A → List A
rest_of [] = []
rest_of (x ∷ q) = q

module _ {A D : Type 0} where
  abbrev pub prepend : List A → Reads A D → Reads A D
  prepend xs o = record o { frames = xs ++ o.frames }

  abbrev pub ended : ℕ → List A → D → Reads A D
  ended e q d = record { status = e; frames = []; pending = q; world = d }

  -- What a read of a period makes of the run: its first frame and what comes after it, or the end.
  abbrev pub arrived : ℕ → List A → D → Reads A D → Reads A D
  arrived zero (x ∷ q) d o = prepend (x ∷ []) o
  arrived zero [] d o = ended 0 [] d
  arrived (suc e) q d o = ended (suc e) [] d

  -- One frame after the other, with a read of a period whenever none is left, up to the first error.
  unfoldable pub deliver : Driver A D → ℕ → ℕ → List A → D → Reads A D
  deliver v period zero q d = ended 0 q d
  deliver v period (suc n) (x ∷ q) d = prepend (x ∷ []) (deliver v period n q d)
  deliver v period (suc n) [] d =
      let (e, q, d') = v.pcm_read period d in arrived e q d' (deliver v period n (rest_of q) d')

module _ {A D : Type 0} where
  append_prepend :
      (xs ys : List A) (o : Reads A D) → prepend xs (prepend ys o) ≡ prepend (xs ++ ys) o
  append_prepend xs ys o = ap (λ zs. record o { frames = zs }) (sym (append_assoc xs ys o.frames))

  module _ (v : Driver A D) (period : ℕ) where
    -- A read of a period that succeeds fills it.
    abbrev pub FillsPeriod : Type 0
    FillsPeriod = (d : D) → (v.pcm_read period d).0 ≡ 0 → length (v.pcm_read period d).1 ≡ period

    -- The pcm_read that fails with an errno, and leaves the driver in a state.
    abbrev pub ReadFails : ℕ → D → Type 0
    ReadFails e d' =
        (d : D) × (0 < e) × ((v.pcm_read period d).0 ≡ e) × ((v.pcm_read period d).2 ≡ d')

    arrived-ReadFails :
        (d : D) (r : ℕ × List A × D) (o : Reads A D)
        → v.pcm_read period d ≡ r
        → (is_zero o.status ≡ false → ReadFails o.status o.world)
        → is_zero (arrived r.0 r.1 r.2 o).status ≡ false
        → ReadFails (arrived r.0 r.1 r.2 o).status (arrived r.0 r.1 r.2 o).world
    arrived-ReadFails d (suc e, q, d') o eq ih z =
        (d, omega arith, ap (λ r. r.0) eq, ap (λ r. r.2) eq)
    arrived-ReadFails d (zero, x ∷ q, d') o eq ih z = ih z
    arrived-ReadFails d (zero, [], d') o eq ih z = cc

    pub deliver-ReadFails :
        (n : ℕ) (q : List A) (d : D)
        → is_zero (deliver v period n q d).status ≡ false
        → ReadFails (deliver v period n q d).status (deliver v period n q d).world
    unfolding deliver
    deliver-ReadFails zero q d z = cc
    deliver-ReadFails (suc n) (x ∷ q) d z = deliver-ReadFails n q d z
    deliver-ReadFails (suc n) [] d z =
        let r = v.pcm_read period d in
        arrived-ReadFails d r (deliver v period n (rest_of r.1) r.2) refl
          (deliver-ReadFails n (rest_of r.1) r.2) z

    minus_zero : (n : ℕ) → n ≡ n - 0
    minus_zero n = omega arith

    minus_suc : (m n : ℕ) → m - n ≡ suc m - suc n
    minus_suc m n = omega arith

    -- The frames in hand come first.
    pub deliver-take :
        (n : ℕ) (q : List A) (d : D)
        → deliver v period n q d
          ≡ prepend
              (take n q)
              (deliver v period (n - length (take n q)) (drop (length (take n q)) q) d)
    unfolding deliver
    deliver-take zero q d = refl
    deliver-take (suc n) [] d = ap (λ k. deliver v period k [] d) (minus_zero (suc n))
    deliver-take (suc n) (x ∷ q) d =
        ap (prepend (x ∷ [])) (deliver-take n q d)
        ∙ ap (λ k. prepend (x ∷ take n q) (deliver v period k (drop (length (take n q)) q) d))
            (minus_suc n (length (take n q)))

    pub deliver_refill :
        (n : ℕ) (d d' : D) (q : List A)
        → 0 < n
        → 0 < length q
        → v.pcm_read period d ≡ (0, q, d')
        → deliver v period n [] d ≡ deliver v period n q d'
    unfolding deliver
    deliver_refill zero d d' q hn hq e = absurd (omega arith)
    deliver_refill (suc n) d d' [] hn hq e = absurd (omega arith)
    deliver_refill (suc n) d d' (x ∷ q) hn hq e = rw e refl

    pub deliver_error :
        (n e : ℕ) (d d' : D) (q : List A)
        → 0 < n
        → 0 < e
        → v.pcm_read period d ≡ (e, q, d')
        → deliver v period n [] d ≡ ended e [] d'
    unfolding deliver
    deliver_error zero e d d' q hn he eq = absurd (omega arith)
    deliver_error (suc n) zero d d' q hn he eq = absurd (omega arith)
    deliver_error (suc n) (suc e) d d' q hn he eq = rw eq refl
