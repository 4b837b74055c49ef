-- ===== src/Audio/Gain/Consistency.antt =====
-- The loudness of media, as set_output_volumes of audio/audio_hw.c sets it: the digital gain of a
-- front end in dB over 0 (120 is 0 dB), and the analog gain of a codec control, in steps of 2 dB.
use android_device_samsung_t.Base.{
  ℕ, ◌≡◌, refl, Bool, true, false, List, some, none, arith, if◌then◌else◌,
}
use android_device_samsung_t.Base.Int.{ℤ, pos, ◌+ℤ◌, ◌-ℤ◌, half_ℤ}
use android_device_samsung_t.Audio.Mixer.{
  MixerCall, Ctl, headset_playback_volume, dl1_media_playback_volume, dl2_media_playback_volume,
  earphone_playback_volume,
}
use android_device_samsung_t.Audio.Mixer.LastValue.{last_value}
use android_device_samsung_t.Audio.Device.{Hal, Env, Mode, in_call}
use android_device_samsung_t.Audio.Gain.{
  set_output_volumes, dl1_volume_correction, final_headset_volume, use_case_volumes,
  db_to_headset_volume, db_to_earpiece_volume, front_end_volumes, mixer_abe_gain_0db,
}

-- The calls leave the digital gain `g` and, on both channels, the analog step `k`, and in dB the two
-- add up to `total`.
abbrev pub Adds : List MixerCall → Ctl → Ctl → ℕ → ℤ → Type 0
Adds calls digital analog channel total =
    (g : ℤ) × (k : ℤ) × (last_value digital 0 calls ≡ some g)
    × (last_value analog channel calls ≡ some k)
    × (g +ℤ (k +ℤ k) ≡ total)

-- On headphones, a headset and the earpiece, in dB.
headphone_total :
    (m : Mode) (hs tty : Bool)
    → mixer_abe_gain_0db
        +ℤ dl1_volume_correction m true hs tty
        +ℤ (db_to_headset_volume (final_headset_volume m true tty)
            +ℤ db_to_headset_volume (final_headset_volume m true tty))
      ≡ pos 144
unfolding dl1_volume_correction final_headset_volume use_case_volumes db_to_headset_volume half_ℤ
    ◌+ℤ◌ ◌-ℤ◌
headphone_total in_call true true = refl
headphone_total m hs tty = ground arith

headset_total :
    (m : Mode) (tty : Bool)
    → mixer_abe_gain_0db
        +ℤ dl1_volume_correction m false true tty
        +ℤ (db_to_headset_volume (final_headset_volume m false tty)
            +ℤ db_to_headset_volume (final_headset_volume m false tty))
      ≡ pos 138
unfolding dl1_volume_correction final_headset_volume use_case_volumes db_to_headset_volume half_ℤ
    ◌+ℤ◌ ◌-ℤ◌
headset_total in_call true = refl
headset_total m tty = ground arith

earpiece_total :
    (m : Mode) (tty : Bool)
    → mixer_abe_gain_0db
        +ℤ dl1_volume_correction m false false tty
        +ℤ (db_to_earpiece_volume (use_case_volumes m false).earpiece
            +ℤ db_to_earpiece_volume (use_case_volumes m false).earpiece)
      ≡ pos 142
unfolding dl1_volume_correction final_headset_volume use_case_volumes db_to_earpiece_volume half_ℤ
    ◌+ℤ◌ ◌-ℤ◌
earpiece_total in_call true = refl
earpiece_total m tty = ground arith

front_avoids_media :
    (m : Mode) (dl1 over dl2 : ℤ)
    → (last_value dl1_media_playback_volume 0 (front_end_volumes m dl1 over dl2) ≡ none)
      × (last_value dl2_media_playback_volume 0 (front_end_volumes m dl1 over dl2) ≡ none)
front_avoids_media in_call dl1 over dl2 = (refl, refl)
front_avoids_media m dl1 over dl2 = (refl, refl)

-- What the calls leave in the controls of media, for any mode and devices.
module _ (e : Env) (a : Hal) (tty : Bool) where
  dl1_gain : ℤ
  dl1_gain =
      mixer_abe_gain_0db
      +ℤ dl1_volume_correction a.mode a.out_device.wired_headphone a.out_device.wired_headset tty

  headset_step : ℤ
  headset_step = db_to_headset_volume (final_headset_volume a.mode a.out_device.wired_headphone tty)

  earpiece_step : ℤ
  earpiece_step =
      db_to_earpiece_volume (use_case_volumes a.mode a.out_device.wired_headphone).earpiece

  dl1_left : last_value dl1_media_playback_volume 0 (set_output_volumes e a tty) ≡ some dl1_gain
  unfolding set_output_volumes dl1_gain
  dl1_left = ground arith

  headset_left :
      (c : Bool)
      → last_value headset_playback_volume (if c then 1 else 0) (set_output_volumes e a tty)
        ≡ some headset_step
  unfolding set_output_volumes headset_step
  headset_left true = ground arith
  headset_left false = ground arith

  earpiece_left :
      last_value earphone_playback_volume 0 (set_output_volumes e a tty) ≡ some earpiece_step
  unfolding set_output_volumes earpiece_step
  earpiece_left = ground arith

-- Whatever the mode, TTY and the codec's range: with media on headphones (bit 8 of out_device), the
-- digital gain and the analog one, on each channel, make -6 dB; on a headset without headphones
-- -12 dB; otherwise, on the earpiece, -2 dB. (The totals hold the offsets: 120 for the digital gain,
-- 30 and 24 for the analog ones.)
pub set_output_volumes_dl1 :
    (e : Env) (a : Hal) (tty : Bool)
    → (a.out_device.wired_headphone ≡ true
        → (c : Bool)
        → Adds
            (set_output_volumes e a tty)
            dl1_media_playback_volume
            headset_playback_volume
            (if c then 1 else 0)
            (pos 144))
      × (a.out_device.wired_headphone ≡ false
          → a.out_device.wired_headset ≡ true
          → (c : Bool)
          → Adds
              (set_output_volumes e a tty)
              dl1_media_playback_volume
              headset_playback_volume
              (if c then 1 else 0)
              (pos 138))
      × (a.out_device.wired_headphone ≡ false
          → a.out_device.wired_headset ≡ false
          → Adds
              (set_output_volumes e a tty)
              dl1_media_playback_volume
              earphone_playback_volume
              0
              (pos 142))
unfolding dl1_gain headset_step earpiece_step
set_output_volumes_dl1 e a tty = (
  λ h c. (
    dl1_gain e a tty,
    headset_step e a tty,
    dl1_left e a tty,
    headset_left e a tty c,
    rw h (headphone_total a.mode a.out_device.wired_headset tty),
  ),
  λ h k c. (
    dl1_gain e a tty,
    headset_step e a tty,
    dl1_left e a tty,
    headset_left e a tty c,
    rw (h, k) (headset_total a.mode tty),
  ),
  λ h k. (
    dl1_gain e a tty,
    earpiece_step e a tty,
    dl1_left e a tty,
    earpiece_left e a tty,
    rw (h, k) (earpiece_total a.mode tty),
  ),
)
