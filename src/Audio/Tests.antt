-- ===== src/Audio/Tests.antt =====
-- Concrete states for the theorems about audio/.
pub mod Calls
pub mod Streams
pub mod Captures
pub mod Writes
pub mod Effects
use android_device_samsung_t.Base.{ℕ, true, false, [], ◌∷◌, none, some, ◌==◌}
use android_device_samsung_t.Base.Int.{pos}
use android_device_samsung_t.Audio.Mixer.{Mixer}
use android_device_samsung_t.Audio.Ril.{RilEnv}
use android_device_samsung_t.Audio.Device.{
  Hal, Env, no_out_device, no_in_device, normal, in_call, tty_off, PcmConfig, StreamOut, pcm_opened,
  pcm_out,
}
use android_device_samsung_t.Audio.Open.{AudioConfig}

abbrev pub card : Mixer
card = record { has_ctl = λ c. true; num_values = λ c. 2; range_max = λ c. pos 29 }

abbrev pub modem : RilEnv
modem = record {
  is_connected = true;
  connect_error = 0;
  disconnect_error = 0;
  close_error = 0;
  request_error = 0;
  open_client_result = some 7;
  volume_steps_property = pos 5;
  times_steps = λ v n. n;
}

-- The second handle that the library returns is not ready.
abbrev pub env : Env
env = record {
  mixer = card;
  ril = modem;
  pcm_is_ready = λ p. p == 0;
  echo_created_ok = λ p. true;
  resampler_created_ok = λ p. true;
  popcount = λ n. 2;
}

abbrev pub config : PcmConfig
config = record {
  channels = 2;
  rate = 48000;
  period_size = 960;
  period_count = 8;
  start_threshold = 0;
  avail_min = 0;
}

abbrev pub playing : StreamOut
playing = record {
  config_normal = config;
  config_spdif = config;
  config_hdmi = config;
  normal = some 0;
  spdif = none;
  hdmi = none;
  standby = false;
  echo_reference = none;
  write_threshold = 0;
  use_long_periods = false;
  channel_mask = 3;
  sup_channel_masks = [];
  restart_periods_cnt = 0;
  muted = false;
  sample_rate = 48000;
}

abbrev pub silent : StreamOut
silent = record playing { normal = none; standby = true }

abbrev pub asked_config : AudioConfig
asked_config = record { sample_rate = 0; channel_mask = 0; format = 0 }

abbrev pub recorder : AudioConfig
recorder = record { sample_rate = 16000; channel_mask = 0x10; format = 1 }

-- The speaker is selected, and nothing is open.
abbrev pub idle : Hal
idle = record {
  mode = normal;
  out_device = record no_out_device { speaker = true };
  in_device = no_in_device;
  pcm_modem_dl = none;
  pcm_modem_ul = none;
  in_call = false;
  voice_volume = 0;
  active_input = none;
  deep_buf = none;
  low_latency = none;
  hdmi = none;
  mic_mute = false;
  tty_mode = tty_off;
  echo_reference = none;
  bluetooth_nrec = true;
  wb_amr = 0;
  screen_off = false;
  ril_handle = none;
  vx_rate = 8000;
  volume_steps_max = pos 5;
  ins = λ i. none;
  next_handle = 0;
  log = [];
}

abbrev pub calling : Hal
calling = record idle { mode = in_call }

abbrev pub music : Hal
music = record idle { low_latency = some playing }

abbrev pub opened_music : Hal
opened_music = record music { log = pcm_opened 0 0 0 pcm_out config ∷ [] }

-- The low latency output is playing when the HDMI output starts.
abbrev pub both_outputs : Hal
both_outputs = record opened_music { hdmi = some silent; next_handle = 1 }
