-- ===== src/Audio/Capture/InRead.antt =====
-- in_read of audio/audio_hw.c, on the HAL and the stream. It returns `bytes` in every case.
pub mod Muted
use android_device_samsung_t.Base.{
  ℕ, zero, suc, ◌+◌, ◌*◌, ◌/◌, ◌%◌, ◌^◌, Bool, true, false, not, ◌&&◌, List, [], ◌∷◌, Option, none,
  some, is_some, if◌then◌else◌, length, map, replicate, write_at, ◌▹◌,
}
use mathlib.Core.Option.{map as map_option}
use android_device_samsung_t.Audio.Mixer.{Status}
use android_device_samsung_t.Audio.Device.{Hal, Env, StreamIn, put_in}
use android_device_samsung_t.Audio.Open.{is_ok}
use android_device_samsung_t.Audio.Input.{start_input_stream}
use android_device_samsung_t.Audio.Capture.{
  Capture, Driver, Frames, count, failed, with_stream, read_frames,
}
use android_device_samsung_t.Audio.Capture.Process.{process_frames}

-- usleep(bytes * 1000000 / frame_size / rate), with a 32-bit product.
abbrev pub pause : ℕ → ℕ → ℕ → ℕ
pause bytes frame_size rate = bytes * 1000000 % 2 ^ 32 / frame_size / rate

-- memset(buffer, 0, bytes).
abbrev pub silence : List (List ℕ) → List (List ℕ)
silence = map (λ (f : List ℕ). replicate (length f) 0)

-- What the loop leaves: whether ret < 0, the buffer, the HAL, the stream, and how long usleep took.
pub record Outcome (D : Type 0) : Type 0 where
  pub failed_read : Bool
  pub buffer : List (List ℕ)
  pub hal : Hal
  pub capture : Capture (List ℕ) D
  pub paused : Option ℕ

-- The stream as the HAL has it after start_input_stream.
abbrev pub taken : {D : Type 0} → Option StreamIn → Capture (List ℕ) D → Capture (List ℕ) D
taken none c = c
taken (some s) c = with_stream s c

module _ {D : Type 0} (e : Env) (v : Driver (List ℕ) D) where
  abbrev pub frame_size : StreamIn → ℕ
  frame_size s = e.popcount s.main_channels * 2

  -- Leaving standby: the stream is no longer in standby where it has been started.
  unfoldable pub wake : ℕ → Capture (List ℕ) D → Hal → Bool × Capture (List ℕ) D × Hal
  wake i c h =
      if not (c.stream).standby
      then (true, c, h)
      else (let (st, k) = start_input_stream e i (c.stream) h in
          let d = taken (k.ins i) c in
          if is_ok st
          then (
            true,
            with_stream (record (d.stream) { standby = false }) d,
            put_in i (record (d.stream) { standby = false }) k,
          )
          else (false, d, k))

  abbrev pub read_status_of : ℕ → Frames
  read_status_of zero = count 0
  read_status_of (suc n) = failed (suc n)

  -- pcm_read into the caller's buffer.
  abbrev pub read_pcm :
      List (List ℕ)
      → Capture (List ℕ) D
      → ℕ × List (List ℕ) × D
      → Frames × List (List ℕ) × Capture (List ℕ) D
  read_pcm buffer c (n, xs, d) = (read_status_of n, write_at 0 xs buffer, record c { world = d })

  abbrev pub written :
      List (List ℕ)
      → Frames × List (List ℕ) × Capture (List ℕ) D
      → Frames × List (List ℕ) × Capture (List ℕ) D
  written buffer (f, xs, k) = (f, write_at 0 xs buffer, k)

  abbrev pub has_preprocessors : List ℕ → Bool
  has_preprocessors [] = false
  has_preprocessors (p ∷ ps) = true

  -- The frames, by the way that the stream needs.
  unfoldable pub read_into :
      ℕ
      → ℕ
      → ℕ
      → List (List ℕ)
      → Capture (List ℕ) D
      → Option (Frames × List (List ℕ) × Capture (List ℕ) D)
  read_into fuel reads frames buffer c =
      if has_preprocessors c.preprocessors
      then process_frames v e.popcount fuel reads frames buffer c
      else (if is_some (c.stream).resampler
          then map_option (written buffer) (read_frames v reads frames c)
          else some (read_pcm buffer c (v.pcm_read frames c.world)))

  abbrev pub paused_for : StreamIn → ℕ → ℕ
  paused_for s bytes = pause bytes (frame_size s) s.requested_rate

  abbrev pub finish : ℕ → ℕ → Hal → Frames × List (List ℕ) × Capture (List ℕ) D → Outcome D
  finish i bytes h (failed n, xs, k) = record {
    failed_read = true;
    buffer = xs;
    hal = put_in i (k.stream) h;
    capture = k;
    paused = some (paused_for (k.stream) bytes);
  }
  finish i bytes h (count n, xs, k) = record {
    failed_read = false;
    buffer = if h.mic_mute then silence xs else xs;
    hal = put_in i (k.stream) h;
    capture = k;
    paused = none;
  }

  unfoldable pub in_read :
      ℕ → ℕ → ℕ → ℕ → List (List ℕ) → Capture (List ℕ) D → Hal → Option (Outcome D)
  unfolding wake read_into
  in_read fuel reads i bytes buffer c h =
      let (ready, d, k) = wake i c h in
      if ready
      then map_option (finish i bytes k)
          (read_into fuel reads (bytes / frame_size (d.stream)) buffer d)
      else some record {
        failed_read = true;
        buffer = buffer;
        hal = k;
        capture = d;
        paused = some (paused_for (d.stream) bytes);
      }
