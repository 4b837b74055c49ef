-- ===== src/Audio/Gain.antt =====
-- audio/audio_hw.h and audio_hw.c: volumes in dB, their conversion to gains, and the routines that
-- write them to the mixer.
pub mod Consistency
pub mod Speaker
use android_device_samsung_t.Base.{
  ℕ, ◌+◌, Bool, true, false, not, ◌&&◌, ◌||◌, List, [], ◌∷◌, ◌++◌, Option, none, some, ◌==◌,
  if◌then◌else◌,
}
use android_device_samsung_t.Base.Int.{ℤ, pos, negsuc, ◌+ℤ◌, ◌-ℤ◌, ltb_ℤ, half_ℤ}
use android_device_samsung_t.Audio.Mixer.{
  MixerCall, Mixer, set_value, set_both, amic_ul_volume, handsfree_playback_volume,
  headset_playback_volume, dl1_tones_playback_volume, dl2_voice_playback_volume,
  dl2_tones_playback_volume, dl1_media_playback_volume, dl2_media_playback_volume,
  earphone_playback_volume,
}
use android_device_samsung_t.Audio.Device.{
  Hal, Env, Mode, invalid, current, normal, ringtone, in_call, in_communication, Source, mic,
  camcorder, voice_recognition, voice_communication, other_source, StreamIn, active_stream,
}

abbrev pub mixer_abe_gain_0db : ℤ
mixer_abe_gain_0db = pos 120

abbrev pub db_to_abe_gain : ℤ → ℤ
db_to_abe_gain x = x +ℤ mixer_abe_gain_0db

unfoldable pub db_to_headset_volume : ℤ → ℤ
db_to_headset_volume x = half_ℤ (x +ℤ pos 30)

unfoldable pub db_to_speaker_volume : ℤ → ℤ
db_to_speaker_volume x = half_ℤ (x +ℤ pos 52)

unfoldable pub db_to_earpiece_volume : ℤ → ℤ
db_to_earpiece_volume x = half_ℤ (x +ℤ pos 24)

-- x * 2 - 52.
unfoldable pub db_from_speaker_volume : ℤ → ℤ
db_from_speaker_volume x = x +ℤ x -ℤ pos 52

-- main_mic_on ? main : (headset_mic_on ? headset : (sub_mic_on ? sub : 0)).
abbrev pub mic_choice : Bool → Bool → Bool → ℤ → ℤ → ℤ → ℤ
mic_choice main_on headset_on sub_on main headset sub =
    if main_on then main else (if headset_on then headset else (if sub_on then sub else pos 0))

-- The capture volume of a source; an unnamed one leaves MIXER_ABE_GAIN_0DB.
pub source_volume : Source → Bool → Bool → Bool → ℤ
source_volume mic m h s = db_to_abe_gain (mic_choice m h s (pos 16) (pos 12) (pos 18))
source_volume camcorder m h s = db_to_abe_gain (mic_choice m h s (pos 13) (pos 12) (pos 10))
source_volume voice_recognition m h s = db_to_abe_gain (mic_choice m h s (pos 5) (pos 14) (pos 18))
source_volume voice_communication m h s =
    db_to_abe_gain (mic_choice m h s (pos 13) (pos 12) (pos 20))
source_volume (other_source n) m h s = mixer_abe_gain_0db

pub input_volume : Mode → Option StreamIn → Bool → Bool → Bool → ℤ
unfolding source_volume
input_volume in_call active m h s = db_to_abe_gain (mic_choice m h s (pos 0) (pos 8) (negsuc 1))
input_volume _ (some i) m h s = source_volume i.source m h s
input_volume _ none m h s = mixer_abe_gain_0db

unfoldable pub set_input_volumes : Hal → Bool → Bool → Bool → List MixerCall
unfolding input_volume
set_input_volumes a main_mic_on headset_mic_on sub_mic_on =
    set_both amic_ul_volume
      (input_volume a.mode (active_stream a) main_mic_on headset_mic_on sub_mic_on)

-- speaker_volume, headset_volume and earpiece_volume, in dB.
pub record Volumes : Type 0 where
  pub speaker : ℤ
  pub headset : ℤ
  pub earpiece : ℤ

abbrev pub normal_speaker_volume : ℤ
normal_speaker_volume = pos 6

abbrev pub normal_headset_volume : ℤ
normal_headset_volume = negsuc 11

abbrev pub normal_headphone_volume : ℤ
normal_headphone_volume = negsuc 5

abbrev pub normal_earpiece_volume : ℤ
normal_earpiece_volume = negsuc 1

-- The volumes of the use case: voice call, VoIP, or media.
unfoldable pub use_case_volumes : Mode → Bool → Volumes
use_case_volumes in_call headphone_on = record {
  speaker = pos 9;
  headset = pos 0;
  earpiece = pos 6;
}
use_case_volumes in_communication headphone_on = record {
  speaker = pos 9;
  headset = negsuc 5;
  earpiece = pos 6;
}
use_case_volumes _ headphone_on = record {
  speaker = normal_speaker_volume;
  headset = if headphone_on then normal_headphone_volume else normal_headset_volume;
  earpiece = normal_earpiece_volume;
}

abbrev pub is_ringtone : Mode → Bool
is_ringtone ringtone = true
is_ringtone _ = false

-- headset_volume after the changes for TTY and for a ringtone.
unfoldable pub final_headset_volume : Mode → Bool → Bool → ℤ
unfolding use_case_volumes ◌+ℤ◌
final_headset_volume m headphone_on tty_volume =
    if tty_volume
    then negsuc 1
    else (if is_ringtone m
        then (use_case_volumes m headphone_on).headset +ℤ negsuc 13
        else (use_case_volumes m headphone_on).headset)

unfoldable pub dl1_volume_correction : Mode → Bool → Bool → Bool → ℤ
unfolding final_headset_volume ◌-ℤ◌
dl1_volume_correction m headphone_on headset_on tty_volume =
    if headphone_on
    then normal_headphone_volume -ℤ final_headset_volume m headphone_on tty_volume
    else (if headset_on
        then normal_headset_volume -ℤ final_headset_volume m headphone_on tty_volume
        else normal_earpiece_volume -ℤ (use_case_volumes m headphone_on).earpiece)

unfoldable pub dl2_volume_correction : Mode → Bool → Bool → ℤ
unfolding use_case_volumes ◌-ℤ◌
dl2_volume_correction m headphone_on speaker_on =
    if speaker_on then normal_speaker_volume -ℤ (use_case_volumes m headphone_on).speaker else pos 0

-- speaker_volume, cut to the codec's range, and what is left over for the digital gain.
unfoldable pub final_speaker_volume : ℤ → ℤ → ℤ
final_speaker_volume max_db v = if ltb_ℤ max_db v then max_db else v

unfoldable pub speaker_volume_overrange : ℤ → ℤ → Bool → ℤ
speaker_volume_overrange max_db v speaker_on =
    if not speaker_on
    then mixer_abe_gain_0db
    else (if ltb_ℤ max_db v then mixer_abe_gain_0db +ℤ (v -ℤ max_db) else mixer_abe_gain_0db)

-- The mixer volumes of the tones and voice front ends, by mode.
abbrev pub front_end_volumes : Mode → ℤ → ℤ → ℤ → List MixerCall
front_end_volumes in_call dl1 over dl2 =
    set_value dl1_tones_playback_volume 0 (mixer_abe_gain_0db +ℤ dl1)
    ∷ set_value dl2_voice_playback_volume 0 over
    ∷ set_value dl2_tones_playback_volume 0 (over +ℤ dl2)
    ∷ []
front_end_volumes in_communication dl1 over dl2 =
    set_value dl1_tones_playback_volume 0 mixer_abe_gain_0db
    ∷ set_value dl2_tones_playback_volume 0 over
    ∷ []
front_end_volumes ringtone dl1 over dl2 =
    set_value dl1_tones_playback_volume 0 mixer_abe_gain_0db
    ∷ set_value dl2_tones_playback_volume 0 over
    ∷ []
front_end_volumes _ dl1 over dl2 =
    set_value dl1_tones_playback_volume 0 (mixer_abe_gain_0db +ℤ dl1)
    ∷ set_value dl2_tones_playback_volume 0 (over +ℤ dl2)
    ∷ []

-- speaker_max_db.
unfoldable pub speaker_max_db : Env → ℤ
speaker_max_db e = db_from_speaker_volume (e.mixer.range_max handsfree_playback_volume)

-- The three parts of set_output_volumes, in their order: the loop over the channels, the front ends
-- by mode, and the media front ends with the earpiece.
module _ (e : Env) (a : Hal) (tty_volume : Bool) where
  unfoldable pub dl1_correction : ℤ
  dl1_correction =
      dl1_volume_correction a.mode a.out_device.wired_headphone a.out_device.wired_headset
        tty_volume

  unfoldable pub dl2_correction : ℤ
  dl2_correction = dl2_volume_correction a.mode a.out_device.wired_headphone a.out_device.speaker

  abbrev pub use_case : Volumes
  use_case = use_case_volumes a.mode a.out_device.wired_headphone

  unfoldable pub overrange : ℤ
  unfolding speaker_max_db
  overrange = speaker_volume_overrange (speaker_max_db e) use_case.speaker a.out_device.speaker

  unfoldable pub analog_volumes : List MixerCall
  unfolding speaker_max_db
  analog_volumes =
      let speaker =
        db_to_speaker_volume (final_speaker_volume (speaker_max_db e) use_case.speaker) in
      let headset =
        db_to_headset_volume
          (final_headset_volume a.mode a.out_device.wired_headphone tty_volume) in
      set_value handsfree_playback_volume 0 speaker
      ∷ set_value headset_playback_volume 0 headset
      ∷ set_value handsfree_playback_volume 1 speaker
      ∷ set_value headset_playback_volume 1 headset
      ∷ []

  unfoldable pub media_volumes : List MixerCall
  unfolding dl1_correction dl2_correction overrange
  media_volumes =
      set_value dl1_media_playback_volume 0 (mixer_abe_gain_0db +ℤ dl1_correction)
      ∷ set_value dl2_media_playback_volume 0 (overrange +ℤ dl2_correction)
      ∷ set_value earphone_playback_volume 0 (db_to_earpiece_volume use_case.earpiece)
      ∷ []

  unfoldable pub set_output_volumes : List MixerCall
  unfolding analog_volumes media_volumes dl1_correction dl2_correction overrange
  set_output_volumes =
      analog_volumes
      ++ (front_end_volumes a.mode dl1_correction overrange dl2_correction ++ media_volumes)
