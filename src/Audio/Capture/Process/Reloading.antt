-- ===== src/Audio/Capture/Process/Reloading.antt =====
-- process_frames of audio/audio_hw.c: how it reads the frames that an effect needs (the record IsProcessing and `reload`).
use android_device_samsung_t.Base.{
  ℕ, zero, suc, ◌+◌, ◌-◌, ◌^◌, ◌≤◌, ◌<◌, ◌≡◌, refl, ◌⊎◌, inl, inr, List, [], ◌∷◌, Option, some,
  is_zero, if_both, ltb, true, false, length, Bool-cases, arith, sym, ap, ◌∙◌, subst,
}
use android_device_samsung_t.Audio.Capture.{Capture, Driver, Frames, count, failed, read_frames}
use android_device_samsung_t.Audio.Capture.Deliver.{
  FillsPeriod, Reads, arrived, rest_of, deliver, ReadFails, deliver-ReadFails,
}
use android_device_samsung_t.Audio.Capture.Round.{IsReading, pending, kept_of}
use android_device_samsung_t.Audio.Capture.Reads.{result, read_frames-deliver}
use android_device_samsung_t.Audio.Capture.Process.{reload, reloaded, grow_proc}
use android_device_samsung_t.Audio.Capture.Process.Frame.{
  RefFits, Complies, reading_part, IsReading-of_part,
}

module _ {A D : Type 0} where
  -- The input of the effects lies in its buffer.
  pub record IsProcessing (period : ℕ) (c : Capture A D) : Type 0 where
    pub is_reading : IsReading period (kept_of (c.stream)) c
    pub input_fits : (c.stream).proc_buf_frames ≤ (c.stream).proc_buf_size
    pub is_small : (c.stream).proc_buf_size < 2 ^ 32
    pub reference_fits : RefFits c

  module _ (v : Driver A D) {lag : D → ℕ} {most : ℕ} (ok : Complies v lag most) (period : ℕ)
      (fills : FillsPeriod v period) (hp : 0 < period) where
    arrived_lag :
        (n : ℕ) (d : D) (r : ℕ × List A × D) (o : Reads A D)
        → lag r.2 ≡ lag d
        → lag o.world ≡ lag r.2
        → lag (arrived r.0 r.1 r.2 o).world ≡ lag d
    arrived_lag n d (zero, x ∷ q, d') o h g = g ∙ h
    arrived_lag n d (zero, [], d') o h g = h
    arrived_lag n d (suc e, q, d') o h g = h

    -- Reading leaves the measure alone.
    deliver_lag : (n : ℕ) (q : List A) (d : D) → lag (deliver v period n q d).world ≡ lag d
    unfolding deliver
    deliver_lag zero q d = refl
    deliver_lag (suc n) (x ∷ q) d = deliver_lag n q d
    deliver_lag (suc n) [] d =
        let r = v.pcm_read period d in
        arrived_lag n d r (deliver v period n (rest_of r.1) r.2) (ok.lag_pcm_read period d)
          (deliver_lag n (rest_of r.1) r.2)

    -- What a reload makes of a stream.
    abbrev pub Reloads : ℕ → Capture A D → Option (Frames × Capture A D) → Type 0
    Reloads frames c r =
        (f : Frames) × (k : Capture A D) × (r ≡ some (f, k))
        × IsProcessing period k
        × (lag k.world ≡ lag c.world)
        × (((e : ℕ) × (f ≡ failed e) × ReadFails v period e k.world)
            ⊎ ((n : ℕ) × (f ≡ count n) × (frames ≤ (k.stream).proc_buf_frames)))

    reloaded-Reloads :
        (frames at : ℕ) (c k : Capture A D) (o : Reads A D)
        → IsProcessing period k
        → lag k.world ≡ lag c.world
        → (k.stream).proc_buf_frames ≡ at
        → at ≤ frames
        → frames ≤ (k.stream).proc_buf_size
        → (is_zero o.status ≡ false) ⊎ (length o.frames ≡ frames - at)
        → (is_zero o.status ≡ false → ReadFails v period o.status k.world)
        → Reloads frames c (reloaded v at (some (result o, o.frames, k)))
    reloaded-Reloads frames at c k o s l e h g w x = elim (Bool-cases (is_zero o.status)) [
      | inl z ↦ rw z (
        count (length o.frames),
        _,
        refl,
        record {
          is_reading = IsReading-of_part period _ k _ refl s.is_reading;
          input_fits = more z w;
          is_small = s.is_small;
          reference_fits = s.reference_fits;
        },
        l,
        inr (_, refl, ground (arith, z, w, e)),
      )
      | inr z ↦ rw z (
        failed o.status,
        _,
        refl,
        record {
          is_reading = IsReading-of_part period _ k _ refl s.is_reading;
          input_fits = s.input_fits;
          is_small = s.is_small;
          reference_fits = s.reference_fits;
        },
        l,
        inl (o.status, refl, x z),
      )
    ]
      where
        more :
            is_zero o.status ≡ true
            → (is_zero o.status ≡ false) ⊎ (length o.frames ≡ frames - at)
            → (k.stream).proc_buf_frames + length o.frames ≤ (k.stream).proc_buf_size
        more z w = ground (arith, e, h, g)

    grow_proc_part :
        (frames : ℕ) (c : Capture A D)
        → (reading_part (grow_proc v frames c) ≡ reading_part c)
          × ((grow_proc v frames c).world ≡ c.world)
    grow_proc_part frames c =
        if_both (λ (k : Capture A D). (reading_part k ≡ reading_part c) × (k.world ≡ c.world))
          (ltb (c.stream).proc_buf_size frames) (refl, refl) (refl, refl)

    grow_proc_lem :
        (frames : ℕ) (c : Capture A D)
        → frames < 2 ^ 32
        → IsProcessing period c
        → ((grow_proc v frames c).stream.proc_buf_frames ≡ (c.stream).proc_buf_frames)
          × (frames ≤ (grow_proc v frames c).stream.proc_buf_size)
          × IsProcessing period (grow_proc v frames c)
    grow_proc_lem frames c h s = elim (Bool-cases (ltb (c.stream).proc_buf_size frames)) [
      | inl b ↦ rw b (
        refl,
        omega arith,
        record {
          is_reading = IsReading-of_part period _ c _ refl s.is_reading;
          input_fits = under (ground (arith, b)) s.input_fits;
          is_small = h;
          reference_fits = s.reference_fits;
        },
      )
      | inr b ↦ rw b (refl, ground (arith, b), s)
    ]
      where
        under :
            (c.stream).proc_buf_size < frames
            → (c.stream).proc_buf_frames ≤ (c.stream).proc_buf_size
            → (c.stream).proc_buf_frames ≤ frames
        under a b = omega arith

    kept-IsProcessing :
        (g k : Capture A D)
        → IsProcessing period g
        → IsReading period (kept_of (g.stream)) k
        → IsProcessing period k
    kept-IsProcessing g k s t = record {
      is_reading = IsReading-of_part period _ k k refl t;
      input_fits = rw (ap (λ t. t.0) t.has_kept, ap (λ t. t.1) t.has_kept) s.input_fits;
      is_small = rw (ap (λ t. t.1) t.has_kept) s.is_small;
      reference_fits = rw (ap (λ t. t.2) t.has_kept, ap (λ t. t.3) t.has_kept) s.reference_fits;
    }

    pub reload-Reloads :
        (reads frames : ℕ) (c : Capture A D)
        → IsProcessing period c
        → frames < 2 ^ 32
        → frames < reads
        → Reloads frames c (reload v reads frames c)
    unfolding reload
    reload-Reloads reads frames c s hf hr =
        elim (Bool-cases (ltb (c.stream).proc_buf_frames frames)) [
          | inl b ↦ rw b (read (ground (arith, b)))
          | inr b ↦ rw b (count 0, c, refl, s, refl, inr (0, refl, ground (arith, b)))
        ]
      where
        g : Capture A D
        g = grow_proc v frames c

        n : ℕ
        n = frames - (c.stream).proc_buf_frames

        o : Reads A D
        o = deliver v period n (pending g) g.world

        read :
            (c.stream).proc_buf_frames ≤ frames
            → Reloads frames c (reloaded v (c.stream).proc_buf_frames (read_frames v reads n g))
        read less =
            let (same, large, t) = grow_proc_lem frames c hf s in
            let (k, u, e, p, w, whole) =
              read_frames-deliver v period (kept_of (g.stream)) fills hp reads n g t.is_reading
                (omega arith) in
            subst (λ r. Reloads frames c (reloaded v (c.stream).proc_buf_frames r)) (sym e)
              (reloaded-Reloads frames (c.stream).proc_buf_frames c k o (kept-IsProcessing g k t u)
                (ap lag w ∙ deliver_lag n (pending g) g.world ∙ ap lag (grow_proc_part frames c).1)
                (ap (λ t. t.0) u.has_kept ∙ same) less
                (subst (λ m. frames ≤ m) (sym (ap (λ t. t.1) u.has_kept)) large) whole
                (λ z.
                  subst (ReadFails v period o.status) (sym w)
                    (deliver-ReadFails v period n (pending g) g.world z)))
