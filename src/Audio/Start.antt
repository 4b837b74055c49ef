-- ===== src/Audio/Start.antt =====
-- audio/audio_hw.c: the PCM configurations and the start of the output streams.
-- PLAYBACK_MMAP is not defined, USE_HDMI_AUDIO is (audio/Android.mk). The stream that starts is the
-- one in the slot of its type.
pub mod Accounts
pub mod Ready
pub mod Pcms
pub mod Single
use android_device_samsung_t.Base.{
  ℕ, ◌+◌, ◌*◌, ◌/◌, ◌%◌, Bool, true, false, not, ◌&&◌, ◌||◌, Option, none, some, is_some, ◌==◌,
  if◌then◌else◌, ◌▹◌, [], ◌∷◌,
}
use android_device_samsung_t.Audio.Mixer.{Status, ok, enomem}
use android_device_samsung_t.Audio.Device.{
  Hal, Env, OutDevices, PcmConfig, StreamOut, OutputType, deep_buf, low_latency, hdmi, PcmType,
  pcm_normal, pcm_spdif, pcm_hdmi, PcmFlags, pcm_out, pcm_out_mmap_noirq, pcm_opened, pcm_closed,
  pcm_avail_min_set, emit, put_output, pcm_open, is_running, is_in_call,
}
use android_device_samsung_t.Audio.Output.{select_output_device}
use android_device_samsung_t.Audio.Standby.{do_output_standby}

abbrev pub short_period_size : ℕ
short_period_size = 12 * (3 * 4)

abbrev pub deep_buffer_short_period_size : ℕ
deep_buffer_short_period_size = 12 * (22 * 4)

abbrev pub deep_buffer_long_period_size : ℕ
deep_buffer_long_period_size = deep_buffer_short_period_size * 7

abbrev pub capture_period_size : ℕ
capture_period_size = 12 * 22 * 4

abbrev pub mm_low_power_sampling_rate : ℕ
mm_low_power_sampling_rate = 44100

abbrev pub mm_full_power_sampling_rate : ℕ
mm_full_power_sampling_rate = 48000

abbrev pub pcm_config_mm : PcmConfig
pcm_config_mm = record {
  channels = 2;
  rate = mm_full_power_sampling_rate;
  period_size = deep_buffer_long_period_size;
  period_count = 2;
  start_threshold = deep_buffer_short_period_size * 4 / 2;
  avail_min = 0;
}

abbrev pub pcm_config_tones : PcmConfig
pcm_config_tones = record {
  channels = 2;
  rate = mm_full_power_sampling_rate;
  period_size = short_period_size;
  period_count = 2;
  start_threshold = 0;
  avail_min = 0;
}

abbrev pub pcm_config_hdmi_multi : PcmConfig
pcm_config_hdmi_multi = record {
  channels = 6;
  rate = mm_full_power_sampling_rate;
  period_size = 1024;
  period_count = 4;
  start_threshold = 0;
  avail_min = 0;
}

abbrev pub pcm_config_mm_ul : PcmConfig
pcm_config_mm_ul = record {
  channels = 2;
  rate = 48000;
  period_size = capture_period_size;
  period_count = 2;
  start_threshold = 0;
  avail_min = 0;
}

-- adev->out_device & ~(AUDIO_DEVICE_OUT_DGTL_DOCK_HEADSET | AUDIO_DEVICE_OUT_AUX_DIGITAL).
abbrev pub not_a_dock : OutDevices → Bool
not_a_dock d =
    d.earpiece
    || (d.speaker
        || (d.wired_headset
            || (d.wired_headphone
                || (d.bluetooth_sco
                    || (d.bluetooth_sco_headset
                        || (d.bluetooth_sco_carkit || not (d.other == 0)))))))

-- if (out->sample_rate % 48 == 0).
abbrev pub rate_of : ℕ → ℕ
rate_of sample_rate =
    if sample_rate % 48 == 0 then mm_full_power_sampling_rate else mm_low_power_sampling_rate

-- out->pcm[type] and out->config[type].
abbrev pub pcm_of : PcmType → StreamOut → Option ℕ
pcm_of pcm_normal o = o.normal
pcm_of pcm_spdif o = o.spdif
pcm_of pcm_hdmi o = o.hdmi

abbrev pub put_pcm : PcmType → Option ℕ → StreamOut → StreamOut
put_pcm pcm_normal p o = record o { normal = p }
put_pcm pcm_spdif p o = record o { spdif = p }
put_pcm pcm_hdmi p o = record o { hdmi = p }

abbrev pub put_config : PcmType → PcmConfig → StreamOut → StreamOut
put_config pcm_normal c o = record o { config_normal = c }
put_config pcm_spdif c o = record o { config_spdif = c }
put_config pcm_hdmi c o = record o { config_hdmi = c }

-- out->pcm[type] = pcm_open(card, port, flags, &out->config[type]), with that configuration.
unfoldable pub open_pcm : PcmType → ℕ → ℕ → PcmFlags → PcmConfig → StreamOut × Hal → StreamOut × Hal
open_pcm type card port flags config (o, h) = (
  put_pcm type (some h.next_handle) (put_config type config o),
  pcm_open card port flags config h,
)

-- Whether the low latency output drives the HDMI port: priority is given to the HDMI output.
abbrev pub hdmi_free : Hal → Bool
hdmi_free h = h.out_device.aux_digital && not (is_running h.hdmi)

-- The PCMs that the low latency output opens, each if its device is selected.
unfoldable pub open_tone_normal : StreamOut × Hal → StreamOut × Hal
unfolding open_pcm
open_tone_normal s =
    if not_a_dock s.1.out_device
    then open_pcm pcm_normal 0 3 pcm_out
        (record pcm_config_tones { rate = rate_of s.0.sample_rate }) s
    else s

unfoldable pub open_tone_spdif : StreamOut × Hal → StreamOut × Hal
unfolding open_pcm
open_tone_spdif s =
    if s.1.out_device.dgtl_dock_headset
    then open_pcm pcm_spdif 0 9 pcm_out (record pcm_config_tones { rate = rate_of s.0.sample_rate })
        s
    else s

unfoldable pub open_tone_hdmi : StreamOut × Hal → StreamOut × Hal
unfolding open_pcm
open_tone_hdmi s =
    if hdmi_free s.1
    then open_pcm pcm_hdmi 1 0 pcm_out
        (record pcm_config_tones { rate = mm_low_power_sampling_rate }) s
    else s

unfoldable pub open_tones : StreamOut × Hal → StreamOut × Hal
unfolding open_tone_normal open_tone_spdif open_tone_hdmi
open_tones s = s ▹ open_tone_normal ▹ open_tone_spdif ▹ open_tone_hdmi

module _ (e : Env) where
  -- One round of the loop that closes the PCMs that are not ready; the Bool is `success`.
  unfoldable pub close_unready : PcmType → Bool × StreamOut × Hal → Bool × StreamOut × Hal
  close_unready type (success, o, h) = elim (pcm_of type o) [
    | none ↦ (success, o, h)
    | some p ↦
        if e.pcm_is_ready p
        then (success, o, h)
        else (false, put_pcm type none o, emit (pcm_closed (some p) ∷ []) h)
  ]

  abbrev pub select_if_idle : Hal → Hal
  select_if_idle h = if is_in_call h.mode then h else emit (select_output_device e h) h

  unfoldable pub start_output_stream_low_latency : StreamOut → Hal → Status × Hal
  unfolding open_tones close_unready
  start_output_stream_low_latency o h =
      let (o0, h0) = open_tones (o, select_if_idle h) in
      let (success, o1, h1) =
        (true, o0, h0)
        ▹ close_unready pcm_normal
        ▹ close_unready pcm_spdif
        ▹ close_unready pcm_hdmi in
      if success
      then (
        ok,
        put_output low_latency
            (some (record o1 {
              echo_reference =
                  if is_some h1.echo_reference then h1.echo_reference else o1.echo_reference;
            }))
            h1,
      )
      else (enomem, put_output low_latency (some o1) h1)

  -- pcm_set_avail_min and the write threshold.
  abbrev pub use_periods : Bool → Option ℕ → StreamOut × Hal → StreamOut × Hal
  use_periods true p (o, h) = (
    record o { use_long_periods = true; write_threshold = deep_buffer_long_period_size * 2 },
    emit (pcm_avail_min_set p deep_buffer_long_period_size ∷ []) h,
  )
  use_periods false p (o, h) = (
    record o { use_long_periods = false; write_threshold = deep_buffer_short_period_size * 4 },
    emit (pcm_avail_min_set p deep_buffer_short_period_size ∷ []) h,
  )

  unfoldable pub start_output_stream_deep_buffer : StreamOut → Hal → Status × Hal
  unfolding open_pcm
  start_output_stream_deep_buffer o h =
      let s =
        open_pcm pcm_normal 0 0 pcm_out_mmap_noirq
          (record pcm_config_mm { rate = rate_of o.sample_rate }) (o, select_if_idle h) in
      if e.pcm_is_ready h.next_handle
      then (let r = use_periods (h.screen_off && not (is_some h.active_input)) s.0.normal s in
          (ok, put_output deep_buf (some r.0) r.1))
      else (
        enomem,
        put_output deep_buf (some (record s.0 { normal = none }))
            (emit (pcm_closed s.0.normal ∷ []) s.1),
      )

  -- "force standby on low latency output stream to close HDMI driver in case it was in use".
  unfoldable pub free_hdmi_port : Hal → Hal
  free_hdmi_port h = if is_running h.low_latency then do_output_standby e low_latency h else h

  unfoldable pub start_output_stream_hdmi : StreamOut → Hal → Status × Hal
  unfolding open_pcm free_hdmi_port
  start_output_stream_hdmi o h =
      let k = free_hdmi_port h in
      let s = open_pcm pcm_hdmi 1 0 pcm_out o.config_hdmi (o, k) in
      if e.pcm_is_ready k.next_handle then (ok, put_output hdmi (some s.0) s.1) else (
        enomem,
        put_output hdmi (some (record s.0 { hdmi = none })) (emit (pcm_closed s.0.hdmi ∷ []) s.1),
      )
