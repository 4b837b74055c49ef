-- ===== src/Audio/Capture/Process.antt =====
-- audio/audio_hw.c: the echo reference and the pre-processing of a capture stream.
-- A frame is a list of 16-bit samples. The delays are 32-bit patterns of nanoseconds.
use Prim.Native.Nat.{bit_and}
pub mod Frame
pub mod Reloading
pub mod Exact
use mathlib.Core.Option.{map as map_option}
use android_device_samsung_t.Base.{
  ℕ, zero, suc, ◌+◌, ◌-◌, ◌*◌, ◌/◌, ◌%◌, ◌^◌, Bool, not, List, [], ◌∷◌, ◌++◌, Option, none, some,
  is_some, is_zero, ltb, leb, if◌then◌else◌, length, map, take, drop, write_at, ◌▹◌,
}
use android_device_samsung_t.Base.Int.{ℤ, pos, sub_ℕ}
use android_device_samsung_t.Audio.Device.{StreamIn}
use android_device_samsung_t.Audio.Capture.{
  Capture, Driver, Frames, count, failed, with_stream, read_frames,
}

-- a - b of size_t.
abbrev pub sub32 : ℕ → ℕ → ℕ
sub32 a b = (a + 2 ^ 32 - b) % 2 ^ 32

-- The nanoseconds that frames last at a rate.
abbrev pub nanoseconds : ℕ → ℕ → ℕ
nanoseconds frames rate = frames * 1000000000 / rate

-- x / 1000 of an int32_t.
abbrev pub to_microseconds : ℕ → ℤ
to_microseconds n = if ltb n (2 ^ 31) then pos (n / 1000) else sub_ℕ 0 ((2 ^ 32 - n) / 1000)

module _ {A D : Type 0} (v : Driver A D) where
  abbrev pub resampler_delay : Option ℕ → D → ℕ
  resampler_delay none d = 0
  resampler_delay (some r) d = v.resampler_delay d

  -- The time stamp and the delay of the first frame that has not been read.
  abbrev pub delay_at : StreamIn → D → Option (ℕ × ℕ × ℕ) → (ℕ × ℕ) × ℕ
  delay_at s d none = ((0, 0), 0)
  delay_at s d (some (kernel_frames, seconds, nanos)) = (
    (seconds, nanos),
    (nanoseconds kernel_frames s.config.rate % 2 ^ 32
          + (nanoseconds s.read_buf_frames s.config.rate
              + nanoseconds s.proc_buf_frames s.requested_rate)
            % 2 ^ 32
          + resampler_delay s.resampler d)
        % 2 ^ 32,
  )

  unfoldable pub get_capture_delay : StreamIn → D → (ℕ × ℕ) × ℕ
  get_capture_delay s d = delay_at s d (v.htimestamp d)

  abbrev pub grow_ref : ℕ → StreamIn → StreamIn
  grow_ref frames s = if ltb s.ref_buf_size frames then record s { ref_buf_size = frames } else s

  -- The frames that echo_reference->read has put behind those in ref_buf, where it succeeds.
  abbrev pub echo_arrived : StreamIn → Capture A D → ℕ × List A × D → Capture A D
  echo_arrived s c (zero, xs, d) = record c {
    stream = record s { ref_buf_frames = s.ref_buf_frames + length xs };
    ref_buf = write_at s.ref_buf_frames xs c.ref_buf;
    world = d;
  }
  echo_arrived s c (suc e, xs, d) = record c {
    stream = s;
    ref_buf = write_at s.ref_buf_frames xs c.ref_buf;
    world = d;
  }

  -- The delay and the stream.
  unfoldable pub update_echo_reference : ℕ → Capture A D → ℕ × Capture A D
  unfolding get_capture_delay
  update_echo_reference frames c =
      let s = grow_ref frames (c.stream) in
      let (stamp, delay) = get_capture_delay (c.stream) c.world in
      if ltb (c.stream).ref_buf_frames frames
      then (
        delay,
        echo_arrived s c (v.echo_read (frames - (c.stream).ref_buf_frames) stamp delay c.world),
      )
      else (0, c)

  -- process_reverse of every effect that has one: the last frame count.
  abbrev pub reverse_one : ℤ → List A → ℕ → Option (List A → D → ℕ × D) → ℕ → D → ℕ × D
  reverse_one delay_us ref e none n d = (n, d)
  reverse_one delay_us ref e (some f) n d =
      let (m, d') = f (take n ref) d in (m, v.set_echo_delay e delay_us d')

  unfoldable pub reverse_all : ℤ → List A → List ℕ → ℕ → D → ℕ × D
  reverse_all delay_us ref [] n d = (n, d)
  reverse_all delay_us ref (e ∷ es) n d =
      let (m, d') = reverse_one delay_us ref e (v.process_reverse e) n d in
      reverse_all delay_us ref es m d'

  -- The frames behind the first n move to the front.
  abbrev pub consume_ref : ℕ → D → Capture A D → Capture A D
  consume_ref n d c =
      let left = sub32 (c.stream).ref_buf_frames n in
      record c {
        stream = record (c.stream) { ref_buf_frames = left };
        ref_buf = write_at 0 (take left (drop n c.ref_buf)) c.ref_buf;
        world = d;
      }

  unfoldable pub push_echo_reference : ℕ → Capture A D → Capture A D
  unfolding update_echo_reference reverse_all
  push_echo_reference frames c =
      let (delay, k) = update_echo_reference frames c in
      let n = if ltb (k.stream).ref_buf_frames frames then (k.stream).ref_buf_frames else frames in
      let (m, d) = reverse_all (to_microseconds delay) k.ref_buf k.preprocessors n k.world in
      consume_ref m d k

  -- process of every effect: the frames consumed, the output area, the frames produced.
  unfoldable pub process_all : List A → List ℕ → ℕ → List A → ℕ → D → ℕ × List A × ℕ × D
  process_all input [] consumed area produced d = (consumed, area, produced, d)
  process_all input (e ∷ es) consumed area produced d =
      let (i, a, o, d') = v.process e (take consumed input) area produced d in
      process_all input es i a o d'

  -- What is left of the input moves to the front.
  abbrev pub consume_proc : ℕ → D → Capture A D → Capture A D
  consume_proc n d c =
      let left = sub32 (c.stream).proc_buf_frames n in
      record c {
        stream = record (c.stream) { proc_buf_frames = left };
        proc_buf_in = write_at 0 (take left (drop n c.proc_buf_in)) c.proc_buf_in;
        world = d;
      }

  abbrev pub grow_proc : ℕ → Capture A D → Capture A D
  grow_proc frames c =
      if ltb (c.stream).proc_buf_size frames
      then with_stream (record (c.stream) { proc_buf_size = frames }) c
      else c

  -- The frames that read_frames has put behind those in proc_buf_in.
  abbrev pub reloaded : ℕ → Option (Frames × List A × Capture A D) → Option (Frames × Capture A D)
  reloaded at none = none
  reloaded at (some (failed e, xs, k)) =
      some (failed e, record k { proc_buf_in = write_at at xs k.proc_buf_in })
  reloaded at (some (count n, xs, k)) = some (
    count n,
    record k {
      stream = record (k.stream) { proc_buf_frames = (k.stream).proc_buf_frames + n };
      proc_buf_in = write_at at xs k.proc_buf_in;
    },
  )

  unfoldable pub reload : ℕ → ℕ → Capture A D → Option (Frames × Capture A D)
  reload fuel frames c =
      if ltb (c.stream).proc_buf_frames frames
      then reloaded (c.stream).proc_buf_frames
          (read_frames v fuel (frames - (c.stream).proc_buf_frames) (grow_proc frames c))
      else some (count 0, c)

  unfoldable pub echo_round : Capture A D → Capture A D
  unfolding push_echo_reference
  echo_round c =
      if is_some (c.stream).echo_reference
      then push_echo_reference (c.stream).proc_buf_frames c
      else c

  -- The effects' part of a round, at frames_wr: frames_wr after it, the output and the stream.
  unfoldable pub process_round : ℕ → ℕ → List A → Capture A D → ℕ × List A × Capture A D
  unfolding process_all
  process_round frames at out c =
      let (i, area, o, d) =
        process_all c.proc_buf_in c.preprocessors (c.stream).proc_buf_frames (drop at out)
          (frames - at) c.world in
      (
        if is_zero o then at else (if leb (at + o) frames then at + o else frames),
        take at out ++ area,
        consume_proc i d c,
      )

  abbrev pub after_reload :
      (Capture A D → Option (Frames × List A × Capture A D))
      → List A
      → Option (Frames × Capture A D)
      → Option (Frames × List A × Capture A D)
  after_reload rest out none = none
  after_reload rest out (some (failed e, k)) = some (failed e, out, k)
  after_reload rest out (some (count n, k)) = rest k

  -- The loop of process_frames over its output; `none` is out of fuel, of which read_frames has `reads`.
  unfoldable pub process_loop :
      ℕ → ℕ → ℕ → ℕ → List A → Capture A D → Option (Frames × List A × Capture A D)
  unfolding reload echo_round process_round
  process_loop zero reads frames at out c = none
  process_loop (suc fuel) reads frames at out c =
      if ltb at frames
      then after_reload
          (λ k.
            let (at', out', l) = process_round frames at out (echo_round k) in
            process_loop fuel reads frames at' out' l)
          out (reload reads frames c)
      else some (count at, out, c)

-- in->main_channels and in->aux_channels as masks: ~main & aux.
abbrev pub has_aux_channels : StreamIn → Bool
has_aux_channels s = not (is_zero (s.aux_channels - bit_and s.main_channels s.aux_channels))

-- The main channels come first in a frame.
abbrev pub main_frames : ℕ → ℕ → List (List ℕ) → List (List ℕ)
main_frames channels n out = map (take channels) (take n out)

module _ {D : Type 0} (v : Driver (List ℕ) D) (popcount : ℕ → ℕ) where
  -- The frames with the main channels alone go to the caller's buffer; none do after an error.
  abbrev pub without_aux :
      List (List ℕ)
      → Frames × List (List ℕ) × Capture (List ℕ) D
      → Frames × List (List ℕ) × Capture (List ℕ) D
  without_aux buffer (failed e, out, k) = (failed e, buffer, record k { proc_buf_out = out })
  without_aux buffer (count n, out, k) = (
    count n,
    write_at 0 (main_frames (popcount (k.stream).main_channels) n out) buffer,
    record k { proc_buf_out = out },
  )

  -- proc_buf_out, which the first round makes large enough where it does so for proc_buf_in.
  abbrev pub proc_buf_out : ℕ → Capture (List ℕ) D → List (List ℕ)
  proc_buf_out frames c =
      if ltb (c.stream).proc_buf_size frames
      then v.realloc frames c.proc_buf_out
      else c.proc_buf_out

  -- The frames, or the error, with the caller's buffer and the stream afterwards.
  unfoldable pub process_frames :
      ℕ
      → ℕ
      → ℕ
      → List (List ℕ)
      → Capture (List ℕ) D
      → Option (Frames × List (List ℕ) × Capture (List ℕ) D)
  process_frames fuel reads frames buffer c =
      if has_aux_channels (c.stream)
      then map_option (without_aux buffer)
          (process_loop v fuel reads frames 0 (proc_buf_out frames c) c)
      else process_loop v fuel reads frames 0 buffer c
