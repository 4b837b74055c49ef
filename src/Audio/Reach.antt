-- ===== src/Audio/Reach.antt =====
-- The entry points of audio/audio_hw.c in any order, and what they keep.
-- A step is an entry point, which holds the device's lock, the start of a stream, for which
-- out_write and in_read hold it, or what a write does to the HAL.
use android_device_samsung_t.Base.{
  ℕ, ◌≡◌, refl, ap, Bool, true, false, ◌==◌, Option, arith, if◌then◌else◌, ◌▹◌,
}
use android_device_samsung_t.Audio.Device.{
  StreamIn, InDevices, Hal, Env, Mode, OutDevices, TtyMode, StreamOut, OutputType, emit, mixed,
}
use android_device_samsung_t.Audio.Standby.{do_output_standby, do_input_standby}
use android_device_samsung_t.Audio.Standby.Frame.{
  do_output_standby-call_state, do_input_standby-call_state,
}
use android_device_samsung_t.Audio.Modem.{
  audio_set_wb_amr_callback, reopen_modem, start_call, start_ul, end_call,
}
use android_device_samsung_t.Audio.Mode.{adev_set_mode, adev_set_voice_volume, adev_set_mic_mute}
use android_device_samsung_t.Audio.Mode.InCall.{
  IsConsistent, adev_set_mode-IsConsistent, start_call-together,
}
use android_device_samsung_t.Audio.Open.{
  AudioConfig, adev_open_output_stream, adev_close_output_stream,
}
use android_device_samsung_t.Audio.Output.{set_eq_filter}
use android_device_samsung_t.Audio.Frames.{
  short, by_line, close_output-line, open_output-line, set_mic_mute-line, set_parameters-line,
  set_routing-line, set_voice_volume-line,
}
use android_device_samsung_t.Audio.Frames.Streams.{
  low_latency-line, deep_buffer-line, hdmi-line, open_input-line, start_input-line,
  close_input-line,
}
use android_device_samsung_t.Audio.Start.{
  start_output_stream_low_latency, start_output_stream_deep_buffer, start_output_stream_hdmi,
}
use android_device_samsung_t.Audio.Write.{low_latency_written, deep_buffer_written, hdmi_written}
use android_device_samsung_t.Audio.Write.Line.{
  low_latency_written-line, deep_buffer_written-line, hdmi_written-line,
}
use android_device_samsung_t.Audio.Input.{
  adev_open_input_stream, adev_close_input_stream, start_input_stream,
}
use android_device_samsung_t.Audio.Params.{out_set_parameters, adev_set_parameters}

-- One call of an entry point.
pub data Step (e : Env) (max_channels : ℕ) : Hal → Hal → Type 0 where
  set_mode : (m : Mode) (h : Hal) → Step e max_channels h (adev_set_mode e m h)
  set_voice_volume : (v : ℕ) (h : Hal) → Step e max_channels h (adev_set_voice_volume e v h)
  set_mic_mute : (b : Bool) (h : Hal) → Step e max_channels h (adev_set_mic_mute e b h)
  set_parameters :
      (tty : Option (Option TtyMode)) (nrec screen : Option Bool) (h : Hal)
      → Step e max_channels h (adev_set_parameters e tty nrec screen h)
  set_routing :
      (t : OutputType) (val : Option OutDevices) (h : Hal)
      → Step e max_channels h (out_set_parameters e t val h)
  set_wb_amr : (n : ℕ) (h : Hal) → Step e max_channels h (audio_set_wb_amr_callback e n h)
  standby_output : (t : OutputType) (h : Hal) → Step e max_channels h (do_output_standby e t h)
  standby_input : (i : ℕ) (h : Hal) → Step e max_channels h (do_input_standby e i h)
  open_output :
      (allocated direct deep : Bool) (devices : OutDevices) (config : AudioConfig) (h : Hal)
      → Step e max_channels h
          (adev_open_output_stream e max_channels allocated direct deep devices config h).2
  start_low_latency :
      (o : StreamOut) (h : Hal) → Step e max_channels h (start_output_stream_low_latency e o h).1
  start_deep_buffer :
      (o : StreamOut) (h : Hal) → Step e max_channels h (start_output_stream_deep_buffer e o h).1
  start_hdmi : (o : StreamOut) (h : Hal) → Step e max_channels h (start_output_stream_hdmi e o h).1
  write_low_latency : (o : StreamOut) (h : Hal) → Step e max_channels h (low_latency_written e o h)
  write_deep_buffer : (o : StreamOut) (h : Hal) → Step e max_channels h (deep_buffer_written e o h)
  write_hdmi : (o : StreamOut) (h : Hal) → Step e max_channels h (hdmi_written e o h)
  open_input :
      (allocated : Bool) (i : ℕ) (devices : InDevices) (config : AudioConfig) (h : Hal)
      → Step e max_channels h (adev_open_input_stream e allocated i devices config h).1
  start_input :
      (i : ℕ) (s : StreamIn) (h : Hal) → Step e max_channels h (start_input_stream e i s h).1
  close_input : (i : ℕ) (h : Hal) → Step e max_channels h (adev_close_input_stream e i h)
  close_output : (t : OutputType) (h : Hal) → Step e max_channels h (adev_close_output_stream e t h)

pub data Reaches (e : Env) (max_channels : ℕ) : Hal → Hal → Type 0 where
  at_start : {h : Hal} → Reaches e max_channels h h
  and_then :
      {h k l : Hal}
      → Reaches e max_channels h k
      → Step e max_channels k l
      → Reaches e max_channels h l

start_call-line :
    (e : Env) (h : Hal)
    → ((start_call e h).1.mode ≡ h.mode) × ((start_call e h).1.in_call ≡ h.in_call)
unfolding start_call start_ul
start_call-line e h = ground arith

reopen_modem-IsConsistent :
    (e : Env) (h : Hal) → IsConsistent h → h.in_call ≡ true → IsConsistent (reopen_modem e h)
unfolding reopen_modem end_call
reopen_modem-IsConsistent e h c r =
    ground (arith, start_call-line e k, start_call-together e k refl refl)
  where
    k : Hal
    k = end_call e h ▹ (λ (k : Hal). emit (mixed (set_eq_filter k)) k)

set_wb_amr-IsConsistent :
    (e : Env) (n : ℕ) (h : Hal) → IsConsistent h → IsConsistent (audio_set_wb_amr_callback e n h)
unfolding audio_set_wb_amr_callback
set_wb_amr-IsConsistent e n h c = at (h.wb_amr == n) h.in_call refl
  where
    at :
        (b r : Bool)
        → h.in_call ≡ r
        → IsConsistent (
            if b
            then h
            else (if r then reopen_modem e (record h { wb_amr = n }) else record h { wb_amr = n }))
    at true r q = c
    at false true q = reopen_modem-IsConsistent e (record h { wb_amr = n }) c q
    at false false q = c

step-IsConsistent :
    {e : Env} {max : ℕ} {h k : Hal} → Step e max h k → IsConsistent h → IsConsistent k
step-IsConsistent {e} (set_mode m h) c = (adev_set_mode-IsConsistent e m h c).0
step-IsConsistent {e} (set_voice_volume v h) c =
    by_line h (adev_set_voice_volume e v h) (set_voice_volume-line e v h) c
step-IsConsistent {e} (set_mic_mute b h) c =
    by_line h (adev_set_mic_mute e b h) (set_mic_mute-line e b h) c
step-IsConsistent {e} (set_parameters tty nrec screen h) c =
    by_line h (adev_set_parameters e tty nrec screen h) (set_parameters-line e tty nrec screen h) c
step-IsConsistent {e} (set_routing t val h) c =
    by_line h (out_set_parameters e t val h) (set_routing-line e t val h) c
step-IsConsistent {e} (set_wb_amr n h) c = set_wb_amr-IsConsistent e n h c
step-IsConsistent {e} (standby_output t h) c =
    by_line h (do_output_standby e t h) (ap short (do_output_standby-call_state e t h)) c
step-IsConsistent {e} (standby_input i h) c =
    by_line h (do_input_standby e i h) (ap short (do_input_standby-call_state e i h)) c
step-IsConsistent {e} {max} (open_output allocated direct deep devices config h) c =
    by_line h ((adev_open_output_stream e max allocated direct deep devices config h).2)
      (open_output-line e max allocated direct deep devices config h) c
step-IsConsistent {e} (start_low_latency o h) c =
    by_line h (start_output_stream_low_latency e o h).1 (low_latency-line e o h) c
step-IsConsistent {e} (start_deep_buffer o h) c =
    by_line h (start_output_stream_deep_buffer e o h).1 (deep_buffer-line e o h) c
step-IsConsistent {e} (start_hdmi o h) c =
    by_line h (start_output_stream_hdmi e o h).1 (hdmi-line e o h) c
step-IsConsistent {e} (write_low_latency o h) c =
    by_line h (low_latency_written e o h) (low_latency_written-line e o h) c
step-IsConsistent {e} (write_deep_buffer o h) c =
    by_line h (deep_buffer_written e o h) (deep_buffer_written-line e o h) c
step-IsConsistent {e} (write_hdmi o h) c =
    by_line h (hdmi_written e o h) (hdmi_written-line e o h) c
step-IsConsistent {e} (open_input allocated i devices config h) c =
    by_line h (adev_open_input_stream e allocated i devices config h).1
      (open_input-line e allocated i devices config h) c
step-IsConsistent {e} (start_input i s h) c =
    by_line h (start_input_stream e i s h).1 (start_input-line e i s h) c
step-IsConsistent {e} (close_input i h) c =
    by_line h (adev_close_input_stream e i h) (close_input-line e i h) c
step-IsConsistent {e} (close_output t h) c =
    by_line h (adev_close_output_stream e t h) (close_output-line e t h) c

-- From a consistent state, such as the one before the first call of an entry point, every sequence of
-- calls of the entry points that `Step` lists leads to a consistent state: in_call holds exactly in
-- AUDIO_MODE_IN_CALL, the modem holds both of its PCMs or none, and none outside of a call, also
-- where opening them failed.
pub Reaches-IsConsistent :
    {e : Env} {max : ℕ} {h k : Hal} → Reaches e max h k → IsConsistent h → IsConsistent k
Reaches-IsConsistent at_start c = c
Reaches-IsConsistent (and_then r s) c = step-IsConsistent s (Reaches-IsConsistent r c)
