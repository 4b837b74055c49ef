-- ===== src/Audio/Mixer.antt =====
-- audio/audio_hw.h and audio_hw.c: the mixer controls, what is written to them, route arrays.
-- The mixer belongs to tinyalsa. Which controls it has and how many values each holds are the
-- parameter `Mixer`; the model keeps the calls that the HAL makes, in their order.
pub mod LastValue
pub mod Route
pub mod Untouched
use android_device_samsung_t.Base.{
  ℕ, zero, suc, ◌+◌, Bool, true, false, List, [], ◌∷◌, ◌++◌, Option, none, some, if◌then◌else◌,
}
use android_device_samsung_t.Base.Int.{ℤ, pos}

-- The control names, as the header's #defines name them.
pub data Ctl : Type 0 where
  dl2_left_equalizer dl2_right_equalizer : Ctl
  dl1_media_playback_volume dl1_voice_playback_volume dl1_tones_playback_volume : Ctl
  dl2_media_playback_volume dl2_voice_playback_volume dl2_tones_playback_volume : Ctl
  sdt_dl_volume sdt_ul_volume : Ctl
  headset_playback_volume handsfree_playback_volume earphone_playback_volume bt_ul_volume : Ctl
  dl1_equalizer dl1_mixer_multimedia dl1_mixer_voice dl1_mixer_tones : Ctl
  dl2_mixer_multimedia dl2_mixer_voice dl2_mixer_tones : Ctl
  sidetone_mixer_playback sidetone_mixer_capture dl2_mono_mixer dl1_pdm_switch : Ctl
  dl1_bt_vx_switch voice_capture_mixer_capture : Ctl
  hs_left_playback hs_right_playback hf_left_playback hf_right_playback : Ctl
  earphone_enable_switch analog_left_capture_route analog_right_capture_route : Ctl
  capture_preamplifier_volume capture_volume amic_ul_volume audul_voice_ul_volume : Ctl
  mux_vx0 mux_vx1 mux_ul10 mux_ul11 : Ctl

-- A number for each control, to compare them.
abbrev pub ctl_id : Ctl → ℕ
ctl_id dl2_left_equalizer = 0
ctl_id dl2_right_equalizer = 1
ctl_id dl1_media_playback_volume = 2
ctl_id dl1_voice_playback_volume = 3
ctl_id dl1_tones_playback_volume = 4
ctl_id dl2_media_playback_volume = 5
ctl_id dl2_voice_playback_volume = 6
ctl_id dl2_tones_playback_volume = 7
ctl_id sdt_dl_volume = 8
ctl_id sdt_ul_volume = 9
ctl_id headset_playback_volume = 10
ctl_id handsfree_playback_volume = 11
ctl_id earphone_playback_volume = 12
ctl_id bt_ul_volume = 13
ctl_id dl1_equalizer = 14
ctl_id dl1_mixer_multimedia = 15
ctl_id dl1_mixer_voice = 16
ctl_id dl1_mixer_tones = 17
ctl_id dl2_mixer_multimedia = 18
ctl_id dl2_mixer_voice = 19
ctl_id dl2_mixer_tones = 20
ctl_id sidetone_mixer_playback = 21
ctl_id sidetone_mixer_capture = 22
ctl_id dl2_mono_mixer = 23
ctl_id dl1_pdm_switch = 24
ctl_id dl1_bt_vx_switch = 25
ctl_id voice_capture_mixer_capture = 26
ctl_id hs_left_playback = 27
ctl_id hs_right_playback = 28
ctl_id hf_left_playback = 29
ctl_id hf_right_playback = 30
ctl_id earphone_enable_switch = 31
ctl_id analog_left_capture_route = 32
ctl_id analog_right_capture_route = 33
ctl_id capture_preamplifier_volume = 34
ctl_id capture_volume = 35
ctl_id amic_ul_volume = 36
ctl_id audul_voice_ul_volume = 37
ctl_id mux_vx0 = 38
ctl_id mux_vx1 = 39
ctl_id mux_ul10 = 40
ctl_id mux_ul11 = 41

-- The names that enumerated controls take.
pub data EnumName : Type 0 where
  off hs_dac hf_dac main_mic sub_mic hs_mic amic0 amic1 bt_left bt_right : EnumName
  high_pass_450hz flat_response lpf_4khz_0db : EnumName

-- mixer_ctl_set_value and mixer_ctl_set_enum_by_string, as calls.
pub data MixerCall : Type 0 where
  set_value : Ctl → ℕ → ℤ → MixerCall
  set_enum : Ctl → EnumName → MixerCall

-- mixer_get_ctl_by_name (is the control there), mixer_ctl_get_num_values, and
-- mixer_ctl_get_range_max.
pub record Mixer : Type 0 where
  pub has_ctl : Ctl → Bool
  pub num_values : Ctl → ℕ
  pub range_max : Ctl → ℤ

-- struct route_setting; the NULL name that ends an array is the end of the list.
pub record RouteSetting : Type 0 where
  pub ctl_name : Ctl
  pub intval : ℤ
  pub strval : Option EnumName

-- The errors that the HAL returns, negated; `other_error` comes from a library.
pub data Status : Type 0 where
  ok einval enomem enosys enodev : Status
  other_error : ℕ → Status

-- The loop over the values of an integer control; `n` of them, from index `j`.
pub set_values : Ctl → ℕ → ℕ → ℤ → List MixerCall
set_values c zero j v = []
set_values c (suc n) j v = set_value c j v ∷ set_values c n (j + 1) v

module _ (m : Mixer) where
  -- One round of the loop, with the control found and the setting's intval and strval.
  pub write_setting : Ctl → ℤ → Option EnumName → Bool → List MixerCall
  unfolding set_values
  write_setting c v (some name) enable = set_enum c (if enable then name else off) ∷ []
  write_setting c v none enable = set_values c (m.num_values c) 0 (if enable then v else pos 0)

  unfoldable pub set_route_by_array : List RouteSetting → Bool → Status × List MixerCall
  unfolding write_setting set_values
  set_route_by_array [] enable = (ok, [])
  set_route_by_array (r ∷ rs) enable =
      let rest = set_route_by_array rs enable in
      if m.has_ctl r.ctl_name
      then (rest.0, write_setting r.ctl_name r.intval r.strval enable ++ rest.1)
      else (einval, [])

-- mixer_ctl_set_value(ctl, 0, n).
abbrev pub set_first : Ctl → ℕ → MixerCall
set_first c n = set_value c 0 (pos n)

-- for (channel = 0; channel < 2; channel++) mixer_ctl_set_value(ctl, channel, v).
abbrev pub set_both : Ctl → ℤ → List MixerCall
set_both c v = set_value c 0 v ∷ set_value c 1 v ∷ []
