-- ===== src/Audio/Input/Microphone.antt =====
-- The start of an input stream of audio/audio_hw.c leaves the mute of the microphone alone.
use android_device_samsung_t.Base.{
  ℕ, ◌≡◌, refl, ◌∙◌, Option, some, arith, if_both, is_some, not, ◌&&◌,
}
use android_device_samsung_t.Audio.Device.{Hal, Env, StreamIn, is_in_call, is_running}
use android_device_samsung_t.Audio.Mixer.{Status}
use android_device_samsung_t.Audio.Standby.{
  put_echo_reference, remove_echo_reference, add_echo_reference,
}
use android_device_samsung_t.Audio.Input.{
  create_resampler, create_echo_reference, get_echo_reference, update_channels, take_echo_reference,
  input_path_on, open_input_pcm, start_input_stream,
}

put_echo-mic_mute : (r : Option ℕ) (h : Hal) → (put_echo_reference r h).mic_mute ≡ h.mic_mute
unfolding put_echo_reference remove_echo_reference
put_echo-mic_mute r h = ground arith

module _ (e : Env) where
  create_echo-mic_mute : (h : Hal) → (create_echo_reference e h).mic_mute ≡ h.mic_mute
  unfolding create_echo_reference add_echo_reference
  create_echo-mic_mute h = ground arith

  get_echo-mic_mute : (h : Hal) → (get_echo_reference e h).mic_mute ≡ h.mic_mute
  unfolding get_echo_reference
  get_echo-mic_mute h =
      if_both (λ (x : Hal). x.mic_mute ≡ k.mic_mute) (is_running k.low_latency)
        (create_echo-mic_mute k) refl
      ∙ put_echo-mic_mute h.echo_reference h
    where
      k : Hal
      k = put_echo_reference h.echo_reference h

  channels-mic_mute : (s : StreamIn × Hal) → (update_channels e s).1.mic_mute ≡ s.1.mic_mute
  unfolding update_channels create_resampler
  channels-mic_mute s = ground arith

  take_echo-mic_mute : (s : StreamIn × Hal) → (take_echo_reference e s).1.mic_mute ≡ s.1.mic_mute
  unfolding take_echo_reference
  take_echo-mic_mute s =
      if_both (λ (x : StreamIn × Hal). x.1.mic_mute ≡ s.1.mic_mute)
        (s.0.need_echo_reference && not (is_some s.0.echo_reference)) (get_echo-mic_mute s.1) refl

  path-mic_mute : (s : StreamIn) (h : Hal) → (input_path_on e s h).mic_mute ≡ h.mic_mute
  unfolding input_path_on
  path-mic_mute s h = if_both (λ (x : Hal). x.mic_mute ≡ h.mic_mute) (is_in_call h.mode) refl refl

  open-mic_mute : (i : ℕ) (s : StreamIn × Hal) → (open_input_pcm e i s).1.mic_mute ≡ s.1.mic_mute
  unfolding open_input_pcm
  open-mic_mute i s =
      if_both (λ (x : Status × Hal). x.1.mic_mute ≡ s.1.mic_mute) (e.pcm_is_ready s.1.next_handle)
        refl refl

  pub start_input_stream-mic_mute :
      (i : ℕ) (s : StreamIn) (h : Hal) → (start_input_stream e i s h).1.mic_mute ≡ h.mic_mute
  unfolding start_input_stream
  start_input_stream-mic_mute i s h =
      open-mic_mute i (take_echo_reference e (update_channels e on))
      ∙ take_echo-mic_mute (update_channels e on)
      ∙ channels-mic_mute on
      ∙ path-mic_mute s (record h { active_input = some i })
    where
      on : StreamIn × Hal
      on = (s, input_path_on e s (record h { active_input = some i }))
