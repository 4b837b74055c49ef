-- ===== src/Audio/Tests/Captures.antt =====
-- The theorems about the capture path of audio/, on a driver that counts its samples.
use android_device_samsung_t.Base.{
  ℕ, zero, suc, ◌+◌, ◌≡◌, refl, ◌⊎◌, inl, true, false, List, [], ◌∷◌, none, some, length, take,
  replicate, write_at, is_zero, arith,
}
use android_device_samsung_t.Audio.Device.{Hal, put_in, StreamIn, no_in_device, mic}
use android_device_samsung_t.Audio.Start.{pcm_config_mm_ul}
use android_device_samsung_t.Audio.Capture.{Capture, Driver, read_frames}
use android_device_samsung_t.Audio.Capture.Deliver.{deliver, FillsPeriod}
use android_device_samsung_t.Audio.Capture.Round.{pending, IsReading, kept_of}
use android_device_samsung_t.Audio.Capture.Reads.{result, read_frames-deliver}
use android_device_samsung_t.Audio.Capture.InRead.{Outcome, in_read}
use android_device_samsung_t.Audio.Tests.{env, idle}

-- n frames of two channels, from sample d on.
abbrev ramp : ℕ → ℕ → List (List ℕ)
ramp zero d = []
ramp (suc n) d = (d ∷ (d + 100) ∷ []) ∷ ramp n (d + 1)

length-ramp : (n d : ℕ) → length (ramp n d) ≡ n
length-ramp zero d = refl
length-ramp (suc n) d = omega (arith, length-ramp n (d + 1))

-- The driver's state is the next sample. The effect copies its input, and says that it fills the output.
abbrev ramps : Driver (List ℕ) ℕ
ramps = record {
  pcm_read = λ n d. (0, ramp n d, d + n);
  resample = λ n c. ([], c);
  resampler_delay = λ d. 0;
  htimestamp = λ d. none;
  echo_read = λ n t delay d. (0, replicate n [], d);
  process = λ e xs area n d. (length xs, write_at 0 (take (length area) xs) area, n, d);
  process_reverse = λ e. none;
  realloc = λ n xs. replicate n [];
  set_echo_delay = λ e n d. d;
}

abbrev pub microphone : StreamIn
microphone = record {
  config = record pcm_config_mm_ul { period_size = 4 };
  pcm = some 3;
  device = no_in_device;
  resampler = none;
  requested_rate = 48000;
  standby = false;
  source = mic;
  echo_reference = none;
  need_echo_reference = false;
  read_buf_size = 0;
  read_buf_frames = 0;
  proc_buf_size = 0;
  proc_buf_frames = 0;
  ref_buf_size = 0;
  ref_buf_frames = 0;
  aux_channels_changed = false;
  main_channels = 1;
  aux_channels = 0;
}

abbrev recording : Capture (List ℕ) ℕ
recording = record {
  stream = microphone;
  read_status = 0;
  read_buf = [];
  proc_buf_in = [];
  proc_buf_out = [];
  ref_buf = [];
  preprocessors = 1 ∷ [];
  world = 5;
}

recording-IsReading : IsReading 4 (kept_of microphone) recording
recording-IsReading = record {
  has_pcm = refl;
  has_no_resampler = refl;
  has_period = refl;
  has_kept = refl;
  is_within = omega arith;
  is_filled = inl refl;
  is_ok = inl refl;
}

ramps-FillsPeriod : FillsPeriod ramps 4
ramps-FillsPeriod d h = refl

read_frames-deliver_example :
    (k : Capture (List ℕ) ℕ) × IsReading 4 (kept_of microphone) k
    × (read_frames ramps 7 6 recording
        ≡ some (
          result (deliver ramps 4 6 (pending recording) 5),
          (deliver ramps 4 6 (pending recording) 5).frames,
          k,
        ))
    × (pending k ≡ (deliver ramps 4 6 (pending recording) 5).pending)
    × (k.world ≡ (deliver ramps 4 6 (pending recording) 5).world)
    × ((is_zero (deliver ramps 4 6 (pending recording) 5).status ≡ false)
        ⊎ (length (deliver ramps 4 6 (pending recording) 5).frames ≡ 6))
read_frames-deliver_example =
    read_frames-deliver ramps 4 (kept_of microphone) ramps-FillsPeriod (omega arith) 7 6 recording
      recording-IsReading (omega arith)

-- Six frames are the first six samples from 5 on, and two of the second period are left.
six_frames :
    ((deliver ramps 4 6 (pending recording) 5).frames ≡ ramp 6 5)
    × ((deliver ramps 4 6 (pending recording) 5).pending ≡ ramp 2 11)
unfolding deliver
six_frames = (refl, refl)

abbrev blank : List (List ℕ)
blank = replicate 6 []

-- Without pre-processing, and with the microphone muted.
abbrev plain : Capture (List ℕ) ℕ
plain = record recording { preprocessors = [] }

abbrev muted_hal : Hal
muted_hal = record idle { mic_mute = true }

abbrev after : Outcome ℕ
after = record {
  failed_read = false;
  buffer = (0 ∷ 0 ∷ []) ∷ (0 ∷ 0 ∷ []) ∷ [];
  hal = put_in 0 microphone muted_hal;
  capture = record plain { world = 7 };
  paused = none;
}

in_read_muted : in_read env ramps 0 0 0 8 (replicate 2 []) plain muted_hal ≡ some after
unfolding in_read
in_read_muted = refl

abbrev two_frames : List (List ℕ)
two_frames = replicate 2 []
