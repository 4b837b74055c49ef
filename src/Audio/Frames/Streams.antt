-- ===== src/Audio/Frames/Streams.antt =====
-- The state of a call while streams of audio/audio_hw.c start, open and close.
use android_device_samsung_t.Base.{
  ℕ, ◌≡◌, refl, ap, ◌∙◌, Bool, true, false, some, is_some, arith, Bool-cases, if◌then◌else◌, inl,
  inr,
}
use android_device_samsung_t.Audio.Device.{
  StreamIn, PcmType, pcm_normal, pcm_spdif, pcm_hdmi, InDevices, Hal, Env, StreamOut, low_latency,
  put_output, is_running,
}
use android_device_samsung_t.Audio.Standby.{add_echo_reference}
use android_device_samsung_t.Audio.Mixer.{Status, ok, enomem}
use android_device_samsung_t.Audio.Standby.Frame.{
  put_echo_reference-call_state, do_output_standby-call_state, do_input_standby-call_state,
}
use android_device_samsung_t.Audio.Open.{AudioConfig}
use android_device_samsung_t.Audio.Start.{
  start_output_stream_low_latency, start_output_stream_deep_buffer, start_output_stream_hdmi,
  open_tones, open_tone_normal, open_tone_spdif, open_tone_hdmi, open_pcm, close_unready,
  select_if_idle, free_hdmi_port,
}
use android_device_samsung_t.Audio.Input.{
  adev_open_input_stream, adev_close_input_stream, open_input, create_resampler, start_input_stream,
  get_echo_reference, create_echo_reference, update_channels, take_echo_reference, open_input_pcm,
  input_path_on,
}
use android_device_samsung_t.Audio.Frames.{line, short}

select_if_idle-line : (e : Env) (h : Hal) → line (select_if_idle e h) ≡ line h
select_if_idle-line e h = ground arith

open_tone_normal-line : (s : StreamOut × Hal) → line (open_tone_normal s).1 ≡ line s.1
unfolding open_tone_normal open_pcm
open_tone_normal-line s = ground arith

open_tone_spdif-line : (s : StreamOut × Hal) → line (open_tone_spdif s).1 ≡ line s.1
unfolding open_tone_spdif open_pcm
open_tone_spdif-line s = ground arith

open_tone_hdmi-line : (s : StreamOut × Hal) → line (open_tone_hdmi s).1 ≡ line s.1
unfolding open_tone_hdmi open_pcm
open_tone_hdmi-line s = ground arith

open_tones-line : (s : StreamOut × Hal) → line (open_tones s).1 ≡ line s.1
unfolding open_tones
open_tones-line s =
    open_tone_hdmi-line (open_tone_spdif (open_tone_normal s))
    ∙ open_tone_spdif-line (open_tone_normal s)
    ∙ open_tone_normal-line s

close_unready-line :
    (e : Env) (t : PcmType) (r : Bool × StreamOut × Hal) → line (close_unready e t r).2 ≡ line r.2
unfolding close_unready
close_unready-line e t r = ground arith

pub low_latency-line :
    (e : Env) (o : StreamOut) (h : Hal) → line (start_output_stream_low_latency e o h).1 ≡ line h
unfolding start_output_stream_low_latency
low_latency-line e o h = at closed.0 ∙ closed-line
  where
    opened : StreamOut × Hal
    opened = open_tones (o, select_if_idle e h)

    one : Bool × StreamOut × Hal
    one = close_unready e pcm_normal (true, opened.0, opened.1)

    two : Bool × StreamOut × Hal
    two = close_unready e pcm_spdif one

    closed : Bool × StreamOut × Hal
    closed = close_unready e pcm_hdmi two

    closed-line : line closed.2 ≡ line h
    closed-line =
        close_unready-line e pcm_hdmi two
        ∙ close_unready-line e pcm_spdif one
        ∙ close_unready-line e pcm_normal (true, opened.0, opened.1)
        ∙ open_tones-line (o, select_if_idle e h)
        ∙ select_if_idle-line e h

    ended : Bool → Status × Hal
    ended b =
        if b
        then (
          ok,
          put_output low_latency
              (some (record (closed.1) {
                echo_reference =
                    if is_some closed.2.echo_reference
                    then closed.2.echo_reference
                    else closed.1.echo_reference;
              }))
              closed.2,
        )
        else (enomem, put_output low_latency (some closed.1) closed.2)

    at : (b : Bool) → line (ended b).1 ≡ line closed.2
    at true = refl
    at false = refl

free_hdmi_port-line : (e : Env) (h : Hal) → line (free_hdmi_port e h) ≡ line h
unfolding free_hdmi_port
free_hdmi_port-line e h = elim (Bool-cases (is_running h.low_latency)) [
  | inl b ↦ simp b (ap short (do_output_standby-call_state e low_latency h))
  | inr b ↦ simp b refl
]

pub hdmi-line :
    (e : Env) (o : StreamOut) (h : Hal) → line (start_output_stream_hdmi e o h).1 ≡ line h
unfolding start_output_stream_hdmi open_pcm
hdmi-line e o h = ground (arith, free_hdmi_port-line e h)

pub deep_buffer-line :
    (e : Env) (o : StreamOut) (h : Hal) → line (start_output_stream_deep_buffer e o h).1 ≡ line h
unfolding start_output_stream_deep_buffer open_pcm
deep_buffer-line e o h = ground arith

pub open_input-line :
    (e : Env) (b : Bool) (i : ℕ) (d : InDevices) (c : AudioConfig) (h : Hal)
    → line (adev_open_input_stream e b i d c h).1 ≡ line h
unfolding adev_open_input_stream open_input create_resampler
open_input-line e b i d c h = ground arith

pub close_input-line : (e : Env) (i : ℕ) (h : Hal) → line (adev_close_input_stream e i h) ≡ line h
unfolding adev_close_input_stream
close_input-line e i h = ground (arith, ap short (do_input_standby-call_state e i h))

get_echo_reference-line : (e : Env) (h : Hal) → line (get_echo_reference e h) ≡ line h
unfolding get_echo_reference create_echo_reference add_echo_reference
get_echo_reference-line e h =
    ground (arith, ap short (put_echo_reference-call_state h.echo_reference h))

update_channels-line : (e : Env) (s : StreamIn × Hal) → line (update_channels e s).1 ≡ line s.1
unfolding update_channels create_resampler
update_channels-line e s = ground arith

take_echo_reference-line :
    (e : Env) (s : StreamIn × Hal) → line (take_echo_reference e s).1 ≡ line s.1
unfolding take_echo_reference
take_echo_reference-line e s = ground (arith, get_echo_reference-line e s.1)

open_input_pcm-line :
    (e : Env) (i : ℕ) (s : StreamIn × Hal) → line (open_input_pcm e i s).1 ≡ line s.1
unfolding open_input_pcm
open_input_pcm-line e i s = ground arith

input_path_on-line : (e : Env) (s : StreamIn) (h : Hal) → line (input_path_on e s h) ≡ line h
unfolding input_path_on
input_path_on-line e s h = ground arith

pub start_input-line :
    (e : Env) (i : ℕ) (s : StreamIn) (h : Hal) → line (start_input_stream e i s h).1 ≡ line h
unfolding start_input_stream
start_input-line e i s h =
    open_input_pcm-line e i (take_echo_reference e (update_channels e t))
    ∙ take_echo_reference-line e (update_channels e t)
    ∙ update_channels-line e t
    ∙ input_path_on-line e s (record h { active_input = some i })
  where
    t : StreamIn × Hal
    t = (s, input_path_on e s (record h { active_input = some i }))
