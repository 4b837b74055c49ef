-- ===== src/Audio/Mode.antt =====
-- audio/audio_hw.c: the audio mode, the voice volume and the microphone's mute.
pub mod InCall
use android_device_samsung_t.Base.{
  ℕ, Bool, true, false, not, List, [], ◌∷◌, ◌++◌, Option, none, some, ◌==◌, if◌then◌else◌, ◌▹◌,
}
use android_device_samsung_t.Base.Int.{ℤ, pos}
use android_device_samsung_t.Audio.Mixer.{set_both, audul_voice_ul_volume}
use android_device_samsung_t.Audio.Ril.{sound_type_voice, ril_set_call_volume, ril_set_mic_mute}
use android_device_samsung_t.Audio.Device.{
  Hal, Env, OutDevices, no_out_device, InDevices, no_in_device, out_eq, Mode, mode_id, is_in_call,
  mixed, asked, emit,
}
use android_device_samsung_t.Audio.Gain.{mixer_abe_gain_0db}
use android_device_samsung_t.Audio.Output.{select_output_device, select_input_device}
use android_device_samsung_t.Audio.Standby.{force_all_standby}
use android_device_samsung_t.Audio.Modem.{start_call, end_call}

abbrev pub only_speaker_mask : OutDevices
only_speaker_mask = record no_out_device { speaker = true }

abbrev pub only_earpiece_mask : OutDevices
only_earpiece_mask = record no_out_device { earpiece = true }

abbrev pub builtin_mic_mask : InDevices
builtin_mic_mask = record no_in_device { builtin_mic = true }

-- The speaker leaves the route on the way into a call.
unfoldable pub without_speaker : Hal → Hal
without_speaker h =
    if out_eq h.out_device only_speaker_mask
    then record h { out_device = only_earpiece_mask; in_device = builtin_mic_mask }
    else record h { out_device = record (h.out_device) { speaker = false } }

module _ (e : Env) where
  abbrev pub send_call_volume : ℕ → Hal → Hal
  send_call_volume v h =
      emit (asked (ril_set_call_volume e.ril h.ril_handle h.volume_steps_max sound_type_voice v).1)
        h

  abbrev pub apply_outputs : Hal → Hal
  apply_outputs h = emit (select_output_device e h) h

  abbrev pub apply_inputs : Hal → Hal
  apply_inputs h = emit (select_input_device e h) h

  unfoldable pub enter_call : Hal → Hal
  enter_call h =
      force_all_standby e h
      ▹ without_speaker
      ▹ apply_outputs
      ▹ (λ (k : Hal). (start_call e k).1)
      ▹ (λ (k : Hal). send_call_volume k.voice_volume k)
      ▹ (λ (k : Hal). record k { in_call = true })

  unfoldable pub leave_call : Hal → Hal
  leave_call h =
      record h { in_call = false } ▹ end_call e ▹ force_all_standby e ▹ apply_outputs ▹ apply_inputs

  unfoldable pub select_mode : Hal → Hal
  unfolding enter_call leave_call
  select_mode h =
      if is_in_call h.mode
      then (if h.in_call then h else enter_call h)
      else (if h.in_call then leave_call h else h)

  unfoldable pub adev_set_mode : Mode → Hal → Hal
  unfolding select_mode
  adev_set_mode mode h =
      if mode_id h.mode == mode_id mode then h else select_mode (record h { mode = mode })

  unfoldable pub adev_set_voice_volume : ℕ → Hal → Hal
  adev_set_voice_volume volume h =
      record h { voice_volume = volume }
      ▹ (λ (k : Hal). if is_in_call k.mode then send_call_volume volume k else k)

  unfoldable pub adev_set_mic_mute : Bool → Hal → Hal
  adev_set_mic_mute state h =
      (if is_in_call h.mode
        then emit
            (asked (ril_set_mic_mute e.ril h.ril_handle state).1
              ++ mixed
                  (set_both audul_voice_ul_volume (if state then pos 0 else mixer_abe_gain_0db)))
            h
        else h)
      ▹ (λ (k : Hal). record k { mic_mute = state })
