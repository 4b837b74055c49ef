-- ===== src/Audio/Tests/Calls.antt =====
-- The theorems about calls, routes and volumes of audio/ at concrete states.
use android_device_samsung_t.Base.{
  ℕ, ◌≡◌, refl, Bool, true, false, [], ◌∷◌, ◌++◌, none, some, ◌||◌, if◌then◌else◌, List, All,
}
use android_device_samsung_t.Base.Int.{ℤ, pos, ◌+ℤ◌, ◌≤ℤ◌}
use android_device_samsung_t.Audio.Mixer.{
  dl1_mixer_voice, dl2_mixer_voice, audul_voice_ul_volume, sidetone_mixer_capture, set_both,
  set_first, ok, enomem, dl1_media_playback_volume, headset_playback_volume,
  earphone_playback_volume, handsfree_playback_volume, dl2_media_playback_volume,
  set_route_by_array, Ctl,
}
use android_device_samsung_t.Audio.Mixer.LastValue.{last_value, last_enum}
use android_device_samsung_t.Audio.Mixer.Route.{Sets, Avoids, route_lem}
use android_device_samsung_t.Audio.Routes
use android_device_samsung_t.Audio.Device.{normal, in_call, is_in_call, mode_id, Call, bit, mixed}
use android_device_samsung_t.Audio.Gain.{mixer_abe_gain_0db, set_output_volumes}
use android_device_samsung_t.Audio.Gain.Consistency.{set_output_volumes_dl1, Adds}
use android_device_samsung_t.Audio.Gain.Speaker.{set_output_volumes_dl2}
use android_device_samsung_t.Audio.Output.{select_output_device}
use android_device_samsung_t.Audio.Output.Mute.{Quiet, select_output_device-mutes}
use android_device_samsung_t.Audio.Output.Paths.{left}
use android_device_samsung_t.Audio.Output.Voice.{has_output, select_output_device-voice}
use android_device_samsung_t.Audio.Balance.{IsBalanced}
use android_device_samsung_t.Audio.Reach.{
  at_start, and_then, set_mode, set_wb_amr, Reaches-IsConsistent,
}
use android_device_samsung_t.Audio.Modem.{start_call, audio_set_wb_amr_callback}
use android_device_samsung_t.Audio.Modem.Open.{both_ready, start_call-both}
use android_device_samsung_t.Audio.Mode.{adev_set_mode}
use android_device_samsung_t.Audio.Mode.InCall.{IsConsistent, adev_set_mode-IsConsistent}
use android_device_samsung_t.Audio.Tests.{card, env, calling, music}

select_output_device-voice_example :
    (x : Bool) × (y : Bool) × (left dl1_mixer_voice (select_output_device env calling)
      ≡ some (pos (bit x 1)))
    × (left dl2_mixer_voice (select_output_device env calling) ≡ some (pos (bit y 1)))
    × (is_in_call in_call ≡ false → (x ≡ false) × (y ≡ false))
    × (is_in_call in_call ≡ true → has_output calling.out_device ≡ true → (x || y) ≡ true)
select_output_device-voice_example = select_output_device-voice env calling

select_output_device-mutes_example :
    (is_in_call in_call ≡ true
      → (between : List Call) × (s : ℕ) × (select_output_device env calling
          ≡ mixed (set_both audul_voice_ul_volume (pos 0))
            ++ (between
                ++ (mixed (set_both audul_voice_ul_volume mixer_abe_gain_0db)
                    ++ mixed (set_first sidetone_mixer_capture s ∷ []))))
        × Quiet between)
    × (is_in_call in_call ≡ false → Quiet (select_output_device env calling))
select_output_device-mutes_example = select_output_device-mutes env calling

-- The uplink's PCM is not ready.
start_call-both_example :
    (both_ready env calling ≡ true
      → ((start_call env calling).0 ≡ ok)
        × ((start_call env calling).1.pcm_modem_dl ≡ some 0)
        × ((start_call env calling).1.pcm_modem_ul ≡ some 1))
    × (both_ready env calling ≡ false
        → ((start_call env calling).0 ≡ enomem)
          × ((start_call env calling).1.pcm_modem_dl ≡ none)
          × ((start_call env calling).1.pcm_modem_ul ≡ none))
    × ((n : ℕ) → IsBalanced n calling → IsBalanced n (start_call env calling).1)
start_call-both_example = start_call-both env calling refl refl

adev_set_mode-IsConsistent_example :
    IsConsistent (adev_set_mode env in_call music)
    × (mode_id (adev_set_mode env in_call music).mode ≡ 4)
    × (is_in_call in_call ≡ true
        → is_in_call normal ≡ false
        → (adev_set_mode env in_call music).out_device.speaker ≡ false)
adev_set_mode-IsConsistent_example =
    adev_set_mode-IsConsistent env in_call music (refl, λ h. (refl, refl), refl)

-- The capture path of a call on the main microphone.
route_lem_example :
    ((set_route_by_array card Routes.vx_ul_amic_left true).0 ≡ ok)
    × All
        (λ r.
          Sets card r.ctl_name r.intval r.strval true
            (set_route_by_array card Routes.vx_ul_amic_left true).1)
        Routes.vx_ul_amic_left
    × ((c : Ctl) (i : ℕ)
        → Avoids c Routes.vx_ul_amic_left
        → (last_value c i (set_route_by_array card Routes.vx_ul_amic_left true).1 ≡ none)
          × (last_enum c (set_route_by_array card Routes.vx_ul_amic_left true).1 ≡ none))
route_lem_example =
    route_lem card Routes.vx_ul_amic_left true (refl, (refl, (refl, tt)))
      ((refl, (refl, tt)), ((refl, tt), (tt, tt)))

set_output_volumes_dl1_example :
    (calling.out_device.wired_headphone ≡ true
      → (c : Bool)
      → Adds
          (set_output_volumes env calling false)
          dl1_media_playback_volume
          headset_playback_volume
          (if c then 1 else 0)
          (pos 144))
    × (calling.out_device.wired_headphone ≡ false
        → calling.out_device.wired_headset ≡ true
        → (c : Bool)
        → Adds
            (set_output_volumes env calling false)
            dl1_media_playback_volume
            headset_playback_volume
            (if c then 1 else 0)
            (pos 138))
    × (calling.out_device.wired_headphone ≡ false
        → calling.out_device.wired_headset ≡ false
        → Adds
            (set_output_volumes env calling false)
            dl1_media_playback_volume
            earphone_playback_volume
            0
            (pos 142))
set_output_volumes_dl1_example = set_output_volumes_dl1 env calling false

set_output_volumes_dl2_example :
    (g : ℤ) × (k : ℤ) × (last_value dl2_media_playback_volume 0
        (set_output_volumes env calling false)
      ≡ some g)
    × (last_value handsfree_playback_volume 0 (set_output_volumes env calling false) ≡ some k)
    × (pos 177 ≤ℤ g +ℤ (k +ℤ k))
    × (g +ℤ (k +ℤ k) ≤ℤ pos 178)
set_output_volumes_dl2_example = set_output_volumes_dl2 env calling false 29 false refl refl

-- A call begins, its bandwidth changes, and it ends.
Reaches-IsConsistent_example :
    IsConsistent
      (adev_set_mode env normal (audio_set_wb_amr_callback env 1 (adev_set_mode env in_call music)))
Reaches-IsConsistent_example =
    Reaches-IsConsistent {e = env} {max = 6} {h = music}
      {k = adev_set_mode env normal
        (audio_set_wb_amr_callback env 1 (adev_set_mode env in_call music))}
      (and_then
        (and_then (and_then at_start (set_mode in_call music))
          (set_wb_amr 1 (adev_set_mode env in_call music)))
        (set_mode normal (audio_set_wb_amr_callback env 1 (adev_set_mode env in_call music))))
      (refl, λ h. (refl, refl), refl)
