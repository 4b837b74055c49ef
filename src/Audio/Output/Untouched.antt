-- ===== src/Audio/Output/Untouched.antt =====
-- Which mixer controls the parts of select_output_device of audio/audio_hw.c leave alone.
use android_device_samsung_t.Base.{
  ℕ, ◌≡◌, Bool, true, false, ◌||◌, List, [], ◌∷◌, ◌++◌, arith, if◌then◌else◌,
}
use android_device_samsung_t.Base.Int.{ℤ}
use android_device_samsung_t.Audio.Mixer.{
  Ctl, handsfree_playback_volume, headset_playback_volume, dl1_tones_playback_volume,
  dl2_voice_playback_volume, dl2_tones_playback_volume, dl1_media_playback_volume,
  dl2_media_playback_volume, earphone_playback_volume, amic_ul_volume, dl1_equalizer,
  analog_left_capture_route, analog_right_capture_route, dl1_pdm_switch, dl1_bt_vx_switch,
  dl2_mono_mixer, earphone_enable_switch,
}
use android_device_samsung_t.Audio.Mixer.Untouched.{
  Untouched, NotIn, is_outside, not_in, ctls, route-Untouched_outside, append-Untouched,
}
use android_device_samsung_t.Audio.Routes
use android_device_samsung_t.Audio.Device.{Hal, Env, is_in_call, Mode, in_call}
use android_device_samsung_t.Audio.Gain.{
  set_output_volumes, set_input_volumes, front_end_volumes, analog_volumes, media_volumes,
  dl1_correction, dl2_correction, overrange,
}
use android_device_samsung_t.Audio.Output.{
  Outputs, route, on, back_end, routes_behind, output_stage, set_eq_filter, call_capture,
  tty_volume,
}

-- The controls that the volumes are written to.
abbrev volume_ctls : List Ctl
volume_ctls =
    handsfree_playback_volume ∷ headset_playback_volume ∷ dl1_tones_playback_volume
    ∷ dl2_voice_playback_volume ∷ dl2_tones_playback_volume ∷ dl1_media_playback_volume
    ∷ dl2_media_playback_volume ∷ earphone_playback_volume ∷ []

module _ (c : Ctl) where
  front_end_volumes-Untouched :
      (m : Mode) (x y z : ℤ) → NotIn c volume_ctls → Untouched c (front_end_volumes m x y z)
  front_end_volumes-Untouched in_call x y z h = ground arith
  front_end_volumes-Untouched m x y z h = ground arith

  volumes-Untouched :
      (e : Env) (a : Hal) (tty : Bool)
      → NotIn c volume_ctls
      → Untouched c (set_output_volumes e a tty)
  unfolding set_output_volumes
  volumes-Untouched e a tty h =
      append-Untouched c (analog_volumes e a tty)
        (front_end_volumes a.mode (dl1_correction e a tty) (overrange e a tty)
            (dl2_correction e a tty)
          ++ media_volumes e a tty)
        (h.0, (h.1.0, (h.0, (h.1.0, tt))))
        (append-Untouched c
          (front_end_volumes a.mode (dl1_correction e a tty) (overrange e a tty)
            (dl2_correction e a tty))
          (media_volumes e a tty) (front_end_volumes-Untouched a.mode _ _ _ h)
          (h.1.1.1.1.1.0, (h.1.1.1.1.1.1.0, (h.1.1.1.1.1.1.1.0, tt))))

  back_end-Untouched :
      (b : Bool) (o : Outputs) (bt : ℕ)
      → is_outside c
          (dl1_pdm_switch ∷ dl1_bt_vx_switch ∷ dl2_mono_mixer ∷ earphone_enable_switch ∷ [])
        ≡ true
      → Untouched c (back_end b o bt)
  unfolding back_end
  back_end-Untouched b o bt h =
      let k =
        not_in c (dl1_pdm_switch ∷ dl1_bt_vx_switch ∷ dl2_mono_mixer ∷ earphone_enable_switch ∷ [])
          h in
      (k.0, (k.1.0, (k.1.1.0, (k.1.1.1.0, tt))))

  output_stage-Untouched :
      (e : Env) (o : Outputs)
      → is_outside c (ctls Routes.hs_output) ≡ true
      → is_outside c (ctls Routes.hf_output) ≡ true
      → Untouched c (output_stage e o)
  unfolding output_stage
  output_stage-Untouched e o h k =
      append-Untouched c _ _ (route-Untouched_outside e.mixer c Routes.hs_output _ h)
        (route-Untouched_outside e.mixer c Routes.hf_output _ k)

  -- All of output_routes behind the front ends.
  pub routes_behind-Untouched :
      (e : Env) (a : Hal) (o : Outputs) (bt : ℕ)
      → is_outside c
          (dl1_pdm_switch ∷ dl1_bt_vx_switch ∷ dl2_mono_mixer ∷ earphone_enable_switch ∷ [])
        ≡ true
      → is_outside c (ctls Routes.hs_output) ≡ true
      → is_outside c (ctls Routes.hf_output) ≡ true
      → is_outside c (dl1_equalizer ∷ volume_ctls) ≡ true
      → Untouched c (routes_behind e a o bt)
  unfolding set_eq_filter routes_behind
  routes_behind-Untouched e a o bt hb hs hf hv =
      append-Untouched c (back_end (is_in_call a.mode) o bt) _
        (back_end-Untouched (is_in_call a.mode) o bt hb)
        (append-Untouched c (output_stage e o) _ (output_stage-Untouched e o hs hf)
          (vs.0, volumes-Untouched e a (tty_volume a) vs.1))
    where
      vs : NotIn c (dl1_equalizer ∷ volume_ctls)
      vs = not_in c (dl1_equalizer ∷ volume_ctls) hv

  -- The input path in a call.
  pub call_capture-Untouched :
      (e : Env) (a : Hal) (o : Outputs)
      → is_outside c (ctls Routes.vx_ul_amic_left) ≡ true
      → is_outside c (ctls Routes.vx_ul_amic_right) ≡ true
      → is_outside c (analog_left_capture_route ∷ analog_right_capture_route ∷ amic_ul_volume ∷ [])
        ≡ true
      → Untouched c (call_capture e a o)
  unfolding call_capture set_input_volumes
  call_capture-Untouched e a o hl hr hs =
      append-Untouched c _ _
        (chosen (on o.headset_on || (on o.headphone_on || on o.earpiece_on)) (on o.speaker_on))
        (k.0, (k.1.0, (k.1.1.0, (k.1.1.0, tt))))
    where
      k : NotIn c (analog_left_capture_route ∷ analog_right_capture_route ∷ amic_ul_volume ∷ [])
      k = not_in c (analog_left_capture_route ∷ analog_right_capture_route ∷ amic_ul_volume ∷ []) hs

      chosen :
          (b s : Bool)
          → Untouched c (
              if b
              then route e Routes.vx_ul_amic_left true
              else (if s
                  then route e Routes.vx_ul_amic_right true
                  else route e Routes.vx_ul_amic_left false))
      chosen true s = route-Untouched_outside e.mixer c Routes.vx_ul_amic_left true hl
      chosen false true = route-Untouched_outside e.mixer c Routes.vx_ul_amic_right true hr
      chosen false false = route-Untouched_outside e.mixer c Routes.vx_ul_amic_left false hl
