-- ===== src/Audio/Tests/Streams.antt =====
-- The theorems about streams of audio/ at concrete states.
use android_device_samsung_t.Base.{
  if◌then◌else◌, ℕ, ◌+◌, ◌*◌, ◌/◌, ◌≤◌, ◌<◌, ◌≡◌, refl, true, false, some,
}
use android_device_samsung_t.Audio.Mixer.{ok, enomem}
use android_device_samsung_t.Audio.Device.{
  Hal, is_running, no_out_device, no_in_device, StreamOut, low_latency,
}
use android_device_samsung_t.Audio.Standby.{do_output_standby}
use android_device_samsung_t.Audio.Standby.Frame.{call_state}
use android_device_samsung_t.Audio.Standby.Slots.{slots, after, do_output_standby_lem}
use android_device_samsung_t.Audio.Balance.{IsBalanced, held}
use android_device_samsung_t.Audio.Start.{
  start_output_stream_low_latency, start_output_stream_hdmi, free_hdmi_port, select_if_idle,
  open_tones,
}
use android_device_samsung_t.Audio.Start.Single.{Starts, start_output_stream_hdmi-Balanced}
use android_device_samsung_t.Audio.Start.Pcms.{start_output_stream_low_latency-Balanced}
use android_device_samsung_t.Audio.Start.Ready.{all_ready, pcms, ready_pcms}
use android_device_samsung_t.Audio.Open.{
  is_ok, check_input_parameters, get_input_buffer_size, output_type, adev_open_output_stream,
}
use android_device_samsung_t.Audio.Open.Buffers.{get_input_buffer_size_bounds}
use android_device_samsung_t.Audio.Open.Once.{Opens, adev_open_output_stream-once}
use android_device_samsung_t.Audio.Input.{adev_open_input_stream}
use android_device_samsung_t.Audio.Input.Closed.{Opened, adev_open_input_stream-close}
use android_device_samsung_t.Audio.Tests.{
  env, silent, asked_config, recorder, idle, opened_music, both_outputs,
}

do_output_standby_lem_example :
    (slots (do_output_standby env low_latency opened_music)
      ≡ after low_latency (slots opened_music))
    × (call_state (do_output_standby env low_latency opened_music) ≡ call_state opened_music)
    × IsBalanced 0 (do_output_standby env low_latency opened_music)
unfolding held
do_output_standby_lem_example = do_output_standby_lem env 0 low_latency opened_music refl

-- The speaker is the only output: one PCM, the first handle.
abbrev tones_idle : Hal
tones_idle = record idle { low_latency = some silent }

start_output_stream_low_latency-Balanced_example :
    let (st, k) = start_output_stream_low_latency env silent tones_idle in
    let opened = (open_tones (silent, select_if_idle env tones_idle)).0 in
    IsBalanced 0 k
    × (st ≡ (if all_ready env opened then ok else enomem))
    × ((p : StreamOut) × (k.low_latency ≡ some p)
        × (pcms p ≡ ready_pcms env opened)
        × (p.standby ≡ true))
unfolding held
start_output_stream_low_latency-Balanced_example =
    start_output_stream_low_latency-Balanced env 0 silent tones_idle refl (refl, refl, refl) refl

get_input_buffer_size_bounds_example :
    (is_ok (check_input_parameters 16000 1 1) ≡ false → get_input_buffer_size 16000 1 1 ≡ 0)
    × (is_ok (check_input_parameters 16000 1 1) ≡ true
        → (blocks : ℕ) × (get_input_buffer_size 16000 1 1 ≡ 16 * blocks * (1 * 2))
          × (1056 * 16000 / 48000 ≤ 16 * blocks)
          × (16 * blocks < 1056 * 16000 / 48000 + 16))
get_input_buffer_size_bounds_example = get_input_buffer_size_bounds 16000 1 1

adev_open_output_stream-once_example :
    Opens env 6
      (output_type true false (record no_out_device { aux_digital = true }))
      asked_config
      (adev_open_output_stream env 6 true true false
        (record no_out_device { aux_digital = true })
        asked_config
        idle)
      idle
adev_open_output_stream-once_example =
    adev_open_output_stream-once env 6 true true false (record no_out_device { aux_digital = true })
      asked_config idle

-- The deep buffer output, closed and alone.
abbrev deep_idle : Hal
deep_idle = record idle { deep_buf = some silent }

start_output_stream_hdmi-Balanced_example :
    let (st, k) = start_output_stream_hdmi env silent both_outputs in
    let handle = (free_hdmi_port env both_outputs).next_handle in
    IsBalanced 0 k
    × (is_running k.low_latency ≡ false)
    × ((p : StreamOut) × (k.hdmi ≡ some p)
        × Starts (env.pcm_is_ready handle) handle st p.hdmi
        × (p.standby ≡ true))
unfolding held
start_output_stream_hdmi-Balanced_example =
    start_output_stream_hdmi-Balanced env 0 silent both_outputs refl refl refl

-- A voice recorder at 16 kHz: a resampler is made and released.
adev_open_input_stream-close_example :
    Opened env 2 16000 idle (adev_open_input_stream env true 2 no_in_device recorder idle)
adev_open_input_stream-close_example =
    adev_open_input_stream-close env true 2 no_in_device recorder idle refl
