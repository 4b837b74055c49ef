-- ===== src/Audio/Open.antt =====
-- audio/audio_hw.c: buffer sizes, and the opening and closing of output streams.
-- A size_t has 32 bits on the device. calloc's success, and the number of channels that the HDMI
-- mixer reports (0 without the mixer or its control), are parameters.
pub mod Buffers
pub mod Once
use android_device_samsung_t.Base.{
  ℕ, ◌+◌, ◌*◌, ◌/◌, ◌%◌, ◌^◌, Bool, true, false, not, ◌&&◌, ◌||◌, Option, none, some, is_some, ◌==◌,
  ltb, if◌then◌else◌, ◌▹◌, List, [], ◌∷◌,
}
use android_device_samsung_t.Audio.Mixer.{Status, ok, einval, enomem, enosys}
use android_device_samsung_t.Audio.Device.{
  Hal, Env, OutDevices, no_out_device, out_eq, PcmConfig, StreamOut, OutputType, deep_buf,
  low_latency, hdmi, get_output, put_output,
}
use android_device_samsung_t.Audio.Start.{
  short_period_size, deep_buffer_short_period_size, pcm_config_mm_ul, pcm_config_tones,
  pcm_config_mm, pcm_config_hdmi_multi, mm_low_power_sampling_rate, mm_full_power_sampling_rate,
}
use android_device_samsung_t.Audio.Standby.{do_output_standby}

-- AUDIO_FORMAT_PCM_16_BIT.
abbrev pub pcm_16_bit : ℕ
pcm_16_bit = 1

abbrev pub is_input_rate : ℕ → Bool
is_input_rate r =
    r == 8000
    || (r == 11025
        || (r == 16000
            || (r == 22050 || (r == 24000 || (r == 32000 || (r == 44100 || r == 48000))))))

unfoldable pub check_input_parameters : ℕ → ℕ → ℕ → Status
check_input_parameters sample_rate format channel_count =
    if not (format == pcm_16_bit)
    then einval
    else (if ltb channel_count 1 || ltb 2 channel_count
        then einval
        else (if is_input_rate sample_rate then ok else einval))

abbrev pub is_ok : Status → Bool
is_ok ok = true
is_ok _ = false

-- ((size + 15) / 16) * 16.
unfoldable pub round_up : ℕ → ℕ
round_up size = (size + 15) / 16 * 16

unfoldable pub get_input_buffer_size : ℕ → ℕ → ℕ → ℕ
unfolding check_input_parameters round_up
get_input_buffer_size sample_rate format channel_count =
    if is_ok (check_input_parameters sample_rate format channel_count)
    then (round_up (pcm_config_mm_ul.period_size * sample_rate % 2 ^ 32 / pcm_config_mm_ul.rate)
        % 2 ^ 32
        * channel_count
        * 2)
      % 2 ^ 32
    else 0

-- The audio_stream_out_frame_size of the platform is a parameter of the three sizes.
unfoldable pub out_get_buffer_size : ℕ → OutputType → ℕ
unfolding round_up
out_get_buffer_size frame_size low_latency = round_up short_period_size * frame_size % 2 ^ 32
out_get_buffer_size frame_size deep_buf =
    round_up deep_buffer_short_period_size * frame_size % 2 ^ 32
out_get_buffer_size frame_size hdmi = 1024 * frame_size % 2 ^ 32

-- struct audio_config.
pub record AudioConfig : Type 0 where
  pub sample_rate : ℕ
  pub channel_mask : ℕ
  pub format : ℕ

abbrev pub channel_out_stereo : ℕ
channel_out_stereo = 0x3

abbrev pub channel_out_5point1 : ℕ
channel_out_5point1 = 0x3f

abbrev pub channel_out_7point1 : ℕ
channel_out_7point1 = 0x63f

abbrev pub no_config : PcmConfig
no_config = record {
  channels = 0;
  rate = 0;
  period_size = 0;
  period_count = 0;
  start_threshold = 0;
  avail_min = 0;
}

-- The stream that calloc and the lines before the type's branch make, for a rate.
abbrev pub fresh_stream : ℕ → StreamOut
fresh_stream rate = record {
  config_normal = no_config;
  config_spdif = no_config;
  config_hdmi = no_config;
  normal = none;
  spdif = none;
  hdmi = none;
  standby = true;
  echo_reference = none;
  write_threshold = 0;
  use_long_periods = false;
  channel_mask = channel_out_stereo;
  sup_channel_masks = channel_out_stereo ∷ [];
  restart_periods_cnt = 0;
  muted = false;
  sample_rate = rate;
}

-- out_read_hdmi_channel_masks; `none` is -ENOSYS.
abbrev pub out_read_hdmi_channel_masks : ℕ → Option (List ℕ)
out_read_hdmi_channel_masks max_channels =
    if max_channels == 6
    then some (channel_out_5point1 ∷ [])
    else (if max_channels == 8 then some (channel_out_5point1 ∷ channel_out_7point1 ∷ []) else none)

-- The type of output that the flags and devices ask for.
abbrev pub output_type : Bool → Bool → OutDevices → OutputType
output_type direct deep devices =
    if direct && out_eq devices (record no_out_device { aux_digital = true })
    then hdmi
    else (if deep then deep_buf else low_latency)

-- if (config->sample_rate == 0) config->sample_rate = rate.
abbrev pub default_to : ℕ → ℕ → ℕ
default_to d x = if x == 0 then d else x

-- The stream of the HDMI branch.
abbrev pub hdmi_stream : Env → AudioConfig → List ℕ → StreamOut
hdmi_stream e config masks =
    let rate = default_to mm_full_power_sampling_rate config.sample_rate in
    let mask = default_to channel_out_5point1 config.channel_mask in
    record (fresh_stream config.sample_rate) {
      channel_mask = mask;
      sup_channel_masks = masks;
      config_hdmi = record pcm_config_hdmi_multi { rate = rate; channels = e.popcount mask };
      restart_periods_cnt = pcm_config_hdmi_multi.period_count * 2;
    }

-- get_format, get_channels and get_sample_rate of the stream, which are of its type.
abbrev pub reported : OutputType → StreamOut → AudioConfig
reported hdmi o = record {
  format = pcm_16_bit;
  channel_mask = o.channel_mask;
  sample_rate = o.config_hdmi.rate;
}
reported _ o = record {
  format = pcm_16_bit;
  channel_mask = o.channel_mask;
  sample_rate = o.sample_rate;
}

module _ (e : Env) (max_channels : ℕ) where
  -- The stream of a type.
  abbrev pub new_stream : OutputType → AudioConfig → Option StreamOut
  new_stream hdmi config = elim (out_read_hdmi_channel_masks max_channels) [
    | none ↦ none
    | some masks ↦ some (hdmi_stream e config masks)
  ]
  new_stream _ config = some (fresh_stream config.sample_rate)

  -- From the type's branch on, with the sample rate that the lines before it leave in config.
  unfoldable pub open_as : OutputType → AudioConfig → Hal → Status × AudioConfig × Hal
  open_as t config h =
      if is_some (get_output t h) then (enosys, config, h) else elim (new_stream t config) [
        | none ↦ (enosys, config, h)
        | some o ↦ (ok, reported t o, put_output t (some o) h)
      ]

  unfoldable pub adev_open_output_stream :
      Bool → Bool → Bool → OutDevices → AudioConfig → Hal → Status × AudioConfig × Hal
  unfolding open_as
  adev_open_output_stream allocated direct deep devices config h =
      if not allocated
      then (enomem, config, h)
      else open_as (output_type direct deep devices)
          (record config { sample_rate = default_to mm_low_power_sampling_rate config.sample_rate })
          h

unfoldable pub adev_close_output_stream : Env → OutputType → Hal → Hal
adev_close_output_stream e t h = do_output_standby e t h ▹ put_output t none
