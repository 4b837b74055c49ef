-- ===== src/Audio/Capture/Process/Frame.antt =====
-- What the echo reference and the effects leave alone in a capture stream of audio/audio_hw.c.
use android_device_samsung_t.Base.{
  ℕ, zero, suc, ◌+◌, ◌-◌, ◌^◌, ◌≤◌, ◌<◌, ◌≡◌, refl, ◌⊎◌, List, [], ◌∷◌, Option, none, some, is_some,
  if_both, Bool-cases, inl, inr, ltb, if◌then◌else◌, length, take, length-take, arith, ap, ◌∙◌,
}
use android_device_samsung_t.Base.Int.{ℤ}
use android_device_samsung_t.Audio.Device.{StreamIn, PcmConfig}
use android_device_samsung_t.Audio.Capture.{Capture, Driver, with_stream}
use android_device_samsung_t.Audio.Capture.Round.{IsReading, kept_of}
use android_device_samsung_t.Audio.Capture.Process.{
  sub32, update_echo_reference, grow_ref, echo_arrived, reverse_one, reverse_all, consume_ref,
  push_echo_reference, echo_round, process_all, get_capture_delay, to_microseconds,
}

module _ {A D : Type 0} where
  -- The part of the state that reads the driver.
  abbrev pub reading_part : Capture A D → Option ℕ × Option ℕ × PcmConfig × ℕ × List A × ℕ
  reading_part c = (
    (c.stream).pcm,
    (c.stream).resampler,
    (c.stream).config,
    (c.stream).read_buf_frames,
    c.read_buf,
    c.read_status,
  )

  -- And what the effects have to process.
  abbrev pub read_part : Capture A D → (Option ℕ × Option ℕ × PcmConfig × ℕ × List A × ℕ) × ℕ × ℕ
  read_part c = (reading_part c, (c.stream).proc_buf_frames, (c.stream).proc_buf_size)

  pub IsReading-of_part :
      (period : ℕ) (kept : ℕ × ℕ × ℕ × ℕ) (c k : Capture A D)
      → reading_part k ≡ reading_part c
      → IsReading period kept c
      → IsReading period (kept_of (k.stream)) k
  IsReading-of_part period kept c k e s = record {
    has_pcm = rw (ap (λ t. t.0) e) s.has_pcm;
    has_no_resampler = rw (ap (λ t. t.1) e) s.has_no_resampler;
    has_period = rw (ap (λ t. t.2) e) s.has_period;
    has_kept = refl;
    is_within = rw (ap (λ t. t.3) e) s.is_within;
    is_filled = rw (ap (λ t. t.3) e, ap (λ t. t.4) e) s.is_filled;
    is_ok = rw (ap (λ t. t.3) e, ap (λ t. t.5) e) s.is_ok;
  }

  -- The valid frames of the reference lie in its buffer, whose size fits a size_t.
  abbrev pub RefFits : Capture A D → Type 0
  RefFits c =
      ((c.stream).ref_buf_frames ≤ (c.stream).ref_buf_size) × ((c.stream).ref_buf_size < 2 ^ 32)

-- What the capture path relies on from the libraries: no call gives or takes more frames than the
-- caller names, an effect keeps the size of its output, and the effects together, given frames and room
-- for some, produce a frame or come closer to it, by a measure that only they change and that is at most `most`.
pub record Complies {A D : Type 0} (v : Driver A D) (lag : D → ℕ) (most : ℕ) : Type 0 where
  pub echo_within : (n : ℕ) (t : ℕ × ℕ) (delay : ℕ) (d : D) → length (v.echo_read n t delay d).1 ≤ n
  pub reverse_within :
      (e : ℕ) (f : List A → D → ℕ × D) (xs : List A) (d : D)
      → v.process_reverse e ≡ some f
      → (f xs d).0 ≤ length xs
  pub process_within :
      (e : ℕ) (xs area : List A) (n : ℕ) (d : D)
      → ((v.process e xs area n d).0 ≤ length xs)
        × (length (v.process e xs area n d).1 ≡ length area)
  pub progress :
      (input : List A) (es : List ℕ) (i : ℕ) (area : List A) (n : ℕ) (d : D)
      → 0 < i
      → 0 < n
      → (lag (process_all v input es i area n d).3 ≤ most)
        × ((0 < (process_all v input es i area n d).2)
            ⊎ (lag (process_all v input es i area n d).3 < lag d))
  pub lag_pcm_read : (n : ℕ) (d : D) → lag (v.pcm_read n d).2 ≡ lag d
  pub lag_echo_read :
      (n : ℕ) (t : ℕ × ℕ) (delay : ℕ) (d : D) → lag (v.echo_read n t delay d).2 ≡ lag d
  pub lag_reverse :
      (e : ℕ) (f : List A → D → ℕ × D) (xs : List A) (d : D)
      → v.process_reverse e ≡ some f
      → lag (f xs d).1 ≡ lag d
  pub lag_set_echo_delay : (e : ℕ) (n : ℤ) (d : D) → lag (v.set_echo_delay e n d) ≡ lag d

module _ {A D : Type 0} (v : Driver A D) where
  grow_ref_part :
      (n : ℕ) (c : Capture A D) → read_part (with_stream (grow_ref v n (c.stream)) c) ≡ read_part c
  grow_ref_part n c =
      if_both (λ s. read_part (with_stream s c) ≡ read_part c) (ltb (c.stream).ref_buf_size n) refl
        refl

  arrived_part :
      (s : StreamIn) (c : Capture A D) (r : ℕ × List A × D)
      → read_part (echo_arrived v s c r) ≡ read_part (with_stream s c)
  arrived_part s c (zero, xs, d) = refl
  arrived_part s c (suc e, xs, d) = refl

  update_part : (n : ℕ) (c : Capture A D) → read_part (update_echo_reference v n c).1 ≡ read_part c
  unfolding update_echo_reference
  update_part n c =
      if_both (λ (r : ℕ × Capture A D). read_part r.1 ≡ read_part c)
        (ltb (c.stream).ref_buf_frames n) (arrived_part _ c _ ∙ grow_ref_part n c) refl

  pub push_part : (n : ℕ) (c : Capture A D) → read_part (push_echo_reference v n c) ≡ read_part c
  unfolding push_echo_reference
  push_part n c = update_part n c

  pub echo_round_part : (c : Capture A D) → read_part (echo_round v c) ≡ read_part c
  unfolding echo_round
  echo_round_part c =
      if_both (λ (k : Capture A D). read_part k ≡ read_part c) (is_some (c.stream).echo_reference)
        (push_part (c.stream).proc_buf_frames c) refl

  module _ {lag : D → ℕ} {most : ℕ} (ok : Complies v lag most) where
    reverse_one_lem :
        (delay : ℤ) (ref : List A) (e n : ℕ) (d : D) (f : Option (List A → D → ℕ × D))
        → v.process_reverse e ≡ f
        → ((reverse_one v delay ref e f n d).0 ≤ n)
          × (lag (reverse_one v delay ref e f n d).1 ≡ lag d)
    reverse_one_lem delay ref e n d none h = (omega arith, refl)
    reverse_one_lem delay ref e n d (some f) h = (
      omega (arith, ok.reverse_within e f (take n ref) d h, length-take n ref),
      ok.lag_set_echo_delay e delay (f (take n ref) d).1 ∙ ok.lag_reverse e f (take n ref) d h,
    )

    reverse_all_lem :
        (delay : ℤ) (ref : List A) (es : List ℕ) (n : ℕ) (d : D)
        → ((reverse_all v delay ref es n d).0 ≤ n)
          × (lag (reverse_all v delay ref es n d).1 ≡ lag d)
    unfolding reverse_all
    reverse_all_lem delay ref [] n d = (omega arith, refl)
    reverse_all_lem delay ref (e ∷ es) n d =
        let one = reverse_one_lem delay ref e n d (v.process_reverse e) refl in
        let r = reverse_one v delay ref e (v.process_reverse e) n d in
        let rest = reverse_all_lem delay ref es r.0 r.1 in
        (omega (arith, one.0, rest.0), rest.1 ∙ one.1)

    arrived_lem :
        (s : StreamIn) (c : Capture A D) (r : ℕ × List A × D)
        → s.ref_buf_frames + length r.1 ≤ s.ref_buf_size
        → s.ref_buf_size < 2 ^ 32
        → RefFits (echo_arrived v s c r) × (lag (echo_arrived v s c r).world ≡ lag r.2)
    arrived_lem s c (zero, xs, d) h g = ((h, g), refl)
    arrived_lem s c (suc e, xs, d) h g = ((omega arith, g), refl)

    grow_ref_lem :
        (n : ℕ) (s : StreamIn)
        → n < 2 ^ 32
        → s.ref_buf_size < 2 ^ 32
        → s.ref_buf_frames ≤ n
        → ((grow_ref v n s).ref_buf_frames ≡ s.ref_buf_frames)
          × (n ≤ (grow_ref v n s).ref_buf_size)
          × ((grow_ref v n s).ref_buf_size < 2 ^ 32)
    grow_ref_lem n s h g k = ground arith

    update_lem :
        (n : ℕ) (c : Capture A D)
        → n < 2 ^ 32
        → RefFits c
        → RefFits (update_echo_reference v n c).1
          × (lag (update_echo_reference v n c).1.world ≡ lag c.world)
    unfolding update_echo_reference
    update_lem n c h f = elim (Bool-cases (ltb (c.stream).ref_buf_frames n)) [
      | inl b ↦ rw b (refilled (ground (arith, b)))
      | inr b ↦ rw b (f, refl)
    ]
      where
        t : (ℕ × ℕ) × ℕ
        t = get_capture_delay v (c.stream) c.world

        s : StreamIn
        s = grow_ref v n (c.stream)

        r : ℕ × List A × D
        r = v.echo_read (n - (c.stream).ref_buf_frames) t.0 t.1 c.world

        few : length r.1 ≤ n - (c.stream).ref_buf_frames
        few = ok.echo_within (n - (c.stream).ref_buf_frames) t.0 t.1 c.world

        refilled :
            (c.stream).ref_buf_frames ≤ n
            → RefFits (echo_arrived v s c r) × (lag (echo_arrived v s c r).world ≡ lag c.world)
        refilled less =
            let g = grow_ref_lem n (c.stream) h f.1 less in
            let a = arrived_lem s c r (omega (arith, g.0, g.1, few)) g.2 in
            (a.0, a.1 ∙ ok.lag_echo_read (n - (c.stream).ref_buf_frames) t.0 t.1 c.world)

    pub sub32_lem : (a b : ℕ) → b ≤ a → a < 2 ^ 32 → sub32 a b ≡ a - b
    sub32_lem a b h g = omega arith

    consume_ref_lem :
        (n : ℕ) (d : D) (c : Capture A D)
        → n ≤ (c.stream).ref_buf_frames
        → RefFits c
        → RefFits (consume_ref v n d c)
    consume_ref_lem n d c h f =
        (omega (arith, sub32_lem (c.stream).ref_buf_frames n h (omega (arith, f.0, f.1)), f.0), f.1)

    push_lem :
        (n : ℕ) (c : Capture A D)
        → n < 2 ^ 32
        → RefFits c
        → RefFits (push_echo_reference v n c)
          × (lag (push_echo_reference v n c).world ≡ lag c.world)
    unfolding push_echo_reference
    push_lem n c h f =
        (consume_ref_lem r.0 r.1 k few (update_lem n c h f).0, all.1 ∙ (update_lem n c h f).1)
      where
        delay : ℤ
        delay = to_microseconds (update_echo_reference v n c).0

        k : Capture A D
        k = (update_echo_reference v n c).1

        m : ℕ
        m = if ltb (k.stream).ref_buf_frames n then (k.stream).ref_buf_frames else n

        r : ℕ × D
        r = reverse_all v delay k.ref_buf k.preprocessors m k.world

        all : (r.0 ≤ m) × (lag r.1 ≡ lag k.world)
        all = reverse_all_lem delay k.ref_buf k.preprocessors m k.world

        least : m ≤ (k.stream).ref_buf_frames
        least = ground arith

        few : r.0 ≤ (k.stream).ref_buf_frames
        few = omega (arith, all.0, least)

    pub echo_round_lem :
        (c : Capture A D)
        → (c.stream).proc_buf_frames < 2 ^ 32
        → RefFits c
        → RefFits (echo_round v c) × (lag (echo_round v c).world ≡ lag c.world)
    unfolding echo_round
    echo_round_lem c h f =
        if_both (λ (k : Capture A D). RefFits k × (lag k.world ≡ lag c.world))
          (is_some (c.stream).echo_reference) (push_lem (c.stream).proc_buf_frames c h f) (f, refl)

    pub process_all_lem :
        (input : List A) (es : List ℕ) (i : ℕ) (area : List A) (n : ℕ) (d : D)
        → ((process_all v input es i area n d).0 ≤ i)
          × (length (process_all v input es i area n d).1 ≡ length area)
    unfolding process_all
    process_all_lem input [] i area n d = (omega arith, refl)
    process_all_lem input (e ∷ es) i area n d =
        let r = v.process e (take i input) area n d in
        let one = ok.process_within e (take i input) area n d in
        let rest = process_all_lem input es r.0 r.1 r.2 r.3 in
        (omega (arith, one.0, rest.0, length-take i input), rest.1 ∙ one.1)
