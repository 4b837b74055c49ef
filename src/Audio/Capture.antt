-- ===== src/Audio/Capture.antt =====
-- audio/audio_hw.c: reading frames from a capture stream.
-- A frame is a value of the type A and a buffer a list of frames; memcpy between regions that overlap
-- is taken to move the frames. An errno is a positive number, 0 is success.
pub mod Deliver
pub mod Round
pub mod Reads
pub mod Process
pub mod InRead
use android_device_samsung_t.Base.{
  ℕ, zero, suc, ◌+◌, ◌-◌, Bool, not, List, [], ◌++◌, Option, none, some, is_some, is_zero, ltb,
  ◌==◌, if◌then◌else◌, length, take, drop,
}
use android_device_samsung_t.Base.Int.{ℤ}
use android_device_samsung_t.Audio.Device.{StreamIn}

-- struct tuna_stream_in with the contents of its buffers and the pre-processors, and the state of
-- what the stream reads from: the driver, the effects and the echo reference.
pub record Capture (A D : Type 0) : Type 0 where
  pub stream : StreamIn
  pub read_status : ℕ
  pub read_buf : List A
  pub proc_buf_in : List A
  pub proc_buf_out : List A
  pub ref_buf : List A
  pub preprocessors : List ℕ
  pub world : D

abbrev pub enodev : ℕ
enodev = 19

module _ {A D : Type 0} where
  abbrev pub with_stream : StreamIn → Capture A D → Capture A D
  with_stream s c = record c { stream = s }

-- The libraries that the capture path calls. A list is as long as the frame count that the C function
-- leaves behind, except for the area that `process` fills, which keeps its size.
pub record Driver (A D : Type 0) : Type 0 where
  -- pcm_read of a number of frames: the errno and the buffer.
  pub pcm_read : ℕ → D → ℕ × List A × D
  -- resample_from_provider, which reads through get_next_buffer and release_buffer.
  pub resample : ℕ → Capture A D → List A × Capture A D
  pub resampler_delay : D → ℕ
  -- pcm_get_htimestamp: the available frames, the seconds and the nanoseconds.
  pub htimestamp : D → Option (ℕ × ℕ × ℕ)
  -- echo_reference->read of a number of frames at a time stamp and a delay.
  pub echo_read : ℕ → ℕ × ℕ → ℕ → D → ℕ × List A × D
  -- process of an effect, on an input and an output area: the frames consumed, the area and the frames
  -- produced.
  pub process : ℕ → List A → List A → ℕ → D → ℕ × List A × ℕ × D
  -- process_reverse, where the effect has one: the frames consumed.
  pub process_reverse : ℕ → Option (List A → D → ℕ × D)
  -- realloc to a number of frames.
  pub realloc : ℕ → List A → List A
  pub set_echo_delay : ℕ → ℤ → D → D

-- What read_frames and process_frames return: a number of frames, or -errno.
pub data Frames : Type 0 where
  count failed : ℕ → Frames

module _ {A D : Type 0} (v : Driver A D) where
  -- read_buf is filled by one period, for which it is first made large enough.
  abbrev pub after_read : StreamIn → Capture A D → ℕ × List A × D → Capture A D
  after_read s c (zero, xs, d) = record c {
    stream = record s { read_buf_frames = s.config.period_size };
    read_status = 0;
    read_buf = xs;
    world = d;
  }
  after_read s c (suc e, xs, d) = record c {
    stream = s;
    read_status = suc e;
    read_buf = xs;
    world = d;
  }

  abbrev pub grow : StreamIn → StreamIn
  grow s =
      if ltb s.read_buf_size s.config.period_size
      then record s { read_buf_size = s.config.period_size }
      else s

  unfoldable pub refill : Capture A D → Capture A D
  refill c = after_read (grow (c.stream)) c (v.pcm_read (c.stream).config.period_size c.world)

  -- At most n of the frames of the period that are left.
  unfoldable pub next_frames : ℕ → Capture A D → List A
  next_frames n c =
      take (if ltb (c.stream).read_buf_frames n then (c.stream).read_buf_frames else n)
        (drop ((c.stream).config.period_size - (c.stream).read_buf_frames) c.read_buf)

  abbrev pub given : ℕ → Capture A D → Option (List A) × Capture A D
  given n c = (some (next_frames n c), c)

  abbrev pub refilled : ℕ → Capture A D → Option (List A) × Capture A D
  refilled n c = if not (is_zero c.read_status) then (none, c) else given n c

  -- `none` is a NULL in buffer->raw.
  unfoldable pub get_next_buffer : ℕ → Capture A D → Option (List A) × Capture A D
  get_next_buffer n c =
      if not (is_some (c.stream).pcm)
      then (none, record c { read_status = enodev })
      else (if (c.stream).read_buf_frames == 0 then refilled n (refill c) else given n c)

  -- get_next_buffer gives n, which is at most read_buf_frames.
  unfoldable pub release_buffer : ℕ → Capture A D → Capture A D
  release_buffer n c =
      with_stream (record (c.stream) { read_buf_frames = (c.stream).read_buf_frames - n }) c

  abbrev pub released : Option (List A) × Capture A D → List A × Capture A D
  released (none, c) = ([], release_buffer 0 c)
  released (some xs, c) = (xs, release_buffer (length xs) c)

  -- The body of the loop of read_frames: the frames that it copies.
  unfoldable pub read_round : ℕ → Capture A D → List A × Capture A D
  read_round n c =
      if is_some (c.stream).resampler then v.resample n c else released (get_next_buffer n c)

  -- The loop, with the frames that the buffer has so far; `none` is out of fuel.
  unfoldable pub read_loop : ℕ → ℕ → List A → Capture A D → Option (Frames × List A × Capture A D)
  read_loop zero frames written c = none
  read_loop (suc fuel) frames written c =
      let (xs, k) = read_round (frames - length written) c in
      let rest = read_loop fuel frames (written ++ xs) k in
      if ltb (length written) frames
      then (if not (is_zero k.read_status)
          then some (failed k.read_status, written ++ xs, k)
          else rest)
      else some (count (length written), written, c)

  unfoldable pub read_frames : ℕ → ℕ → Capture A D → Option (Frames × List A × Capture A D)
  read_frames fuel frames c = read_loop fuel frames [] c
