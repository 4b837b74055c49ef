-- ===== src/Audio/Routes.antt =====
-- audio/audio_hw.h: the route arrays. MIXER_ABE_GAIN_0DB is 120, and the capture gains are those of
-- DB_TO_CAPTURE_PREAMPLIFIER_VOLUME(0) and DB_TO_CAPTURE_VOLUME(30).
use android_device_samsung_t.Base.{ℕ, ◌+◌, ◌-◌, ◌/◌, List, [], ◌∷◌, none, some}
use android_device_samsung_t.Base.Int.{pos}
use android_device_samsung_t.Audio.Mixer.{
  Ctl, EnumName, RouteSetting, amic0, amic1, audul_voice_ul_volume, bt_left, bt_ul_volume,
  capture_preamplifier_volume, capture_volume, dl1_media_playback_volume, dl1_pdm_switch,
  dl1_tones_playback_volume, dl1_voice_playback_volume, dl2_left_equalizer,
  dl2_media_playback_volume, dl2_right_equalizer, dl2_tones_playback_volume,
  dl2_voice_playback_volume, hf_dac, hf_left_playback, hf_right_playback, high_pass_450hz, hs_dac,
  hs_left_playback, hs_right_playback, mux_ul10, mux_ul11, mux_vx0, mux_vx1, sdt_dl_volume,
  sdt_ul_volume, sidetone_mixer_capture, sidetone_mixer_playback, voice_capture_mixer_capture,
}

abbrev by_name : Ctl → EnumName → RouteSetting
by_name c n = record { ctl_name = c; intval = pos 0; strval = some n }

abbrev by_int : Ctl → ℕ → RouteSetting
by_int c v = record { ctl_name = c; intval = pos v; strval = none }

abbrev pub defaults : List RouteSetting
defaults =
    by_name dl2_left_equalizer high_pass_450hz
    ∷ by_name dl2_right_equalizer high_pass_450hz
    ∷ by_int dl1_media_playback_volume 120
    ∷ by_int dl2_media_playback_volume 120
    ∷ by_int dl1_voice_playback_volume 120
    ∷ by_int dl2_voice_playback_volume 120
    ∷ by_int dl1_tones_playback_volume 120
    ∷ by_int dl2_tones_playback_volume 120
    ∷ by_int sdt_dl_volume 120
    ∷ by_int audul_voice_ul_volume 120
    ∷ by_int capture_preamplifier_volume ((0 + 6) / 6)
    ∷ by_int capture_volume ((30 - 6) / 6)
    ∷ by_int sdt_ul_volume (120 - 17)
    ∷ by_int sidetone_mixer_capture 0
    ∷ by_int sidetone_mixer_playback 1
    ∷ by_int dl1_pdm_switch 1
    ∷ by_int bt_ul_volume 120
    ∷ []

abbrev pub hf_output : List RouteSetting
hf_output = by_name hf_left_playback hf_dac ∷ by_name hf_right_playback hf_dac ∷ []

abbrev pub hs_output : List RouteSetting
hs_output = by_name hs_left_playback hs_dac ∷ by_name hs_right_playback hs_dac ∷ []

abbrev pub mm_ul2_bt : List RouteSetting
mm_ul2_bt = by_name mux_ul10 bt_left ∷ by_name mux_ul11 bt_left ∷ []

abbrev pub mm_ul2_amic_left : List RouteSetting
mm_ul2_amic_left = by_name mux_ul10 amic0 ∷ by_name mux_ul11 amic0 ∷ []

abbrev pub mm_ul2_amic_right : List RouteSetting
mm_ul2_amic_right = by_name mux_ul10 amic1 ∷ by_name mux_ul11 amic1 ∷ []

abbrev pub mm_ul2_amic_dual_main_sub : List RouteSetting
mm_ul2_amic_dual_main_sub = by_name mux_ul10 amic0 ∷ by_name mux_ul11 amic1 ∷ []

abbrev pub mm_ul2_amic_dual_sub_main : List RouteSetting
mm_ul2_amic_dual_sub_main = by_name mux_ul10 amic1 ∷ by_name mux_ul11 amic0 ∷ []

abbrev pub vx_ul_amic_left : List RouteSetting
vx_ul_amic_left =
    by_name mux_vx0 amic0 ∷ by_name mux_vx1 amic0 ∷ by_int voice_capture_mixer_capture 1 ∷ []

abbrev pub vx_ul_amic_right : List RouteSetting
vx_ul_amic_right =
    by_name mux_vx0 amic1 ∷ by_name mux_vx1 amic1 ∷ by_int voice_capture_mixer_capture 1 ∷ []

abbrev pub vx_ul_bt : List RouteSetting
vx_ul_bt =
    by_name mux_vx0 bt_left ∷ by_name mux_vx1 bt_left ∷ by_int voice_capture_mixer_capture 1 ∷ []
