-- ===== src/Audio/Gain/Speaker.antt =====
-- The loudness of media on the speaker, as set_output_volumes of audio/audio_hw.c sets it.
use android_device_samsung_t.Base.{
  ℕ, ◌+◌, ◌≡◌, refl, Bool, true, false, some, arith, ◌⊎◌, inl, inr, ap, ◌∙◌, Bool-cases,
  if◌then◌else◌,
}
use android_device_samsung_t.Base.Int.{ℤ, pos, negsuc, ◌+ℤ◌, ◌-ℤ◌, half_ℤ, ◌≤ℤ◌, ltb_ℤ, int_laws}
use android_device_samsung_t.Audio.Mixer.{handsfree_playback_volume, dl2_media_playback_volume}
use android_device_samsung_t.Audio.Mixer.LastValue.{last_value}
use android_device_samsung_t.Audio.Device.{Hal, Env, Mode, in_call, in_communication}
use android_device_samsung_t.Audio.Gain.{
  set_output_volumes, dl2_volume_correction, final_speaker_volume, use_case_volumes,
  speaker_volume_overrange, db_to_speaker_volume, db_from_speaker_volume,
}

-- The sum of the two gains for a volume `v` in dB and a correction `dl2`, on a codec of range `max`.
abbrev speaker_sum : ℕ → ℤ → ℤ → ℤ
speaker_sum max v dl2 =
    let max_db = db_from_speaker_volume (pos max) in
    speaker_volume_overrange max_db v true
    +ℤ dl2
    +ℤ (db_to_speaker_volume (final_speaker_volume max_db v)
        +ℤ db_to_speaker_volume (final_speaker_volume max_db v))

double-half : (n : ℕ) → half_ℤ (pos (n + n)) ≡ pos n
unfolding half_ℤ
double-half n = ground arith

-- A step of the speaker's codec is what its dB convert back to.
pub db_to_speaker_volume-db_from_speaker_volume :
    (max : ℕ) → db_to_speaker_volume (db_from_speaker_volume (pos max)) ≡ pos max
unfolding db_to_speaker_volume db_from_speaker_volume
db_to_speaker_volume-db_from_speaker_volume max = ap half_ℤ (omega int_laws) ∙ double-half max

-- Out of the codec's range, the cut is made up for exactly.
speaker_sum_cut :
    (max : ℕ) (v dl2 : ℤ)
    → ltb_ℤ (db_from_speaker_volume (pos max)) v ≡ true
    → speaker_sum max v dl2 ≡ pos 172 +ℤ v +ℤ dl2
unfolding speaker_volume_overrange final_speaker_volume
speaker_sum_cut max v dl2 h =
    rw (h, db_to_speaker_volume-db_from_speaker_volume)
      (unfold db_from_speaker_volume in omega int_laws)

-- Within it, the analog step rounds down.
speaker_sum_within :
    (max : ℕ) (v dl2 : ℤ)
    → ltb_ℤ (db_from_speaker_volume (pos max)) v ≡ false
    → speaker_sum max v dl2 ≡ pos 120 +ℤ dl2 +ℤ (db_to_speaker_volume v +ℤ db_to_speaker_volume v)
unfolding speaker_volume_overrange final_speaker_volume
speaker_sum_within max v dl2 h = rw h

-- The volume of a use case and the correction for it.
speaker_volumes :
    (m : Mode) (hp : Bool)
    → (((use_case_volumes m hp).speaker ≡ pos 6) × (dl2_volume_correction m hp true ≡ pos 0))
      ⊎ (((use_case_volumes m hp).speaker ≡ pos 9) × (dl2_volume_correction m hp true ≡ negsuc 2))
unfolding use_case_volumes dl2_volume_correction ◌-ℤ◌
speaker_volumes in_call hp = inr (refl, refl)
speaker_volumes in_communication hp = inr (refl, refl)
speaker_volumes m hp = inl (refl, refl)

speaker_total_of :
    (max : ℕ) (v dl2 : ℤ)
    → ((v ≡ pos 6) × (dl2 ≡ pos 0)) ⊎ ((v ≡ pos 9) × (dl2 ≡ negsuc 2))
    → (pos 177 ≤ℤ speaker_sum max v dl2) × (speaker_sum max v dl2 ≤ℤ pos 178)
speaker_total_of max v dl2 h = elim (Bool-cases (ltb_ℤ (db_from_speaker_volume (pos max)) v)) [
  | inl cut ↦ rw (speaker_sum_cut max v dl2 cut) (cut_total v dl2 h)
  | inr within ↦ rw (speaker_sum_within max v dl2 within) (within_total v dl2 h)
]
  where
    cut_total :
        (v dl2 : ℤ)
        → ((v ≡ pos 6) × (dl2 ≡ pos 0)) ⊎ ((v ≡ pos 9) × (dl2 ≡ negsuc 2))
        → (pos 177 ≤ℤ pos 172 +ℤ v +ℤ dl2) × (pos 172 +ℤ v +ℤ dl2 ≤ℤ pos 178)
    cut_total v dl2 (inl k) = rw (k.0, k.1) (unfold ◌+ℤ◌ in (omega arith, omega arith))
    cut_total v dl2 (inr k) = rw (k.0, k.1) (unfold ◌+ℤ◌ in (omega arith, omega arith))

    within_total :
        (v dl2 : ℤ)
        → ((v ≡ pos 6) × (dl2 ≡ pos 0)) ⊎ ((v ≡ pos 9) × (dl2 ≡ negsuc 2))
        → (pos 177 ≤ℤ pos 120 +ℤ dl2 +ℤ (db_to_speaker_volume v +ℤ db_to_speaker_volume v))
          × (pos 120 +ℤ dl2 +ℤ (db_to_speaker_volume v +ℤ db_to_speaker_volume v) ≤ℤ pos 178)
    within_total v dl2 (inl k) =
        rw (k.0, k.1) (unfold db_to_speaker_volume half_ℤ ◌+ℤ◌ in (omega arith, omega arith))
    within_total v dl2 (inr k) =
        rw (k.0, k.1) (unfold db_to_speaker_volume half_ℤ ◌+ℤ◌ in (omega arith, omega arith))

-- With the speaker on, and a codec whose largest step is `max`, the digital gain of media and the
-- analog one, on each channel, make between 5 and 6 dB in every mode: what the codec's range cuts
-- off is moved to the digital gain. (The totals hold the offsets 120 and 52.)
pub set_output_volumes_dl2 :
    (e : Env) (a : Hal) (tty : Bool) (max : ℕ) (c : Bool)
    → e.mixer.range_max handsfree_playback_volume ≡ pos max
    → a.out_device.speaker ≡ true
    → (g : ℤ) × (k : ℤ) × (last_value dl2_media_playback_volume 0 (set_output_volumes e a tty)
        ≡ some g)
      × (last_value handsfree_playback_volume (if c then 1 else 0) (set_output_volumes e a tty)
          ≡ some k)
      × (pos 177 ≤ℤ g +ℤ (k +ℤ k))
      × (g +ℤ (k +ℤ k) ≤ℤ pos 178)
unfolding set_output_volumes
set_output_volumes_dl2 e a tty max c h s = (
  speaker_volume_overrange max_db v a.out_device.speaker
      +ℤ dl2_volume_correction a.mode a.out_device.wired_headphone a.out_device.speaker,
  db_to_speaker_volume (final_speaker_volume max_db v),
  ground arith,
  speaker_left c,
  rw (h, s) total.0,
  rw (h, s) total.1,
)
  where
    max_db : ℤ
    max_db = db_from_speaker_volume (e.mixer.range_max handsfree_playback_volume)

    v : ℤ
    v = (use_case_volumes a.mode a.out_device.wired_headphone).speaker

    total :
        (pos 177
          ≤ℤ speaker_sum max v (dl2_volume_correction a.mode a.out_device.wired_headphone true))
        × (speaker_sum max v (dl2_volume_correction a.mode a.out_device.wired_headphone true)
            ≤ℤ pos 178)
    total = speaker_total_of max v _ (speaker_volumes a.mode a.out_device.wired_headphone)

    speaker_left :
        (c : Bool)
        → last_value handsfree_playback_volume (if c then 1 else 0) (set_output_volumes e a tty)
          ≡ some (db_to_speaker_volume (final_speaker_volume max_db v))
    speaker_left true = ground arith
    speaker_left false = ground arith
