-- ===== src/Audio/Effects/Stream.antt =====
-- What a standby, and the other changes of audio/audio_hw.c, leave of an input stream's channels.
use android_device_samsung_t.Base.{
  ℕ, ◌≡◌, refl, sym, ap, subst, Option, none, some, ◌==◌, ==_iff, if◌then◌else◌, if_both,
}
use android_device_samsung_t.Audio.Device.{Hal, Env, StreamIn, InDevices, put_in}
use android_device_samsung_t.Audio.Standby.{do_input_standby, stop_input}

-- The channels of a stream and the microphone that they come from.
abbrev pub channels_of : StreamIn → InDevices × ℕ × ℕ
channels_of s = (s.device, s.main_channels, s.aux_channels)

-- The stream i is there, with these channels.
abbrev pub Has : ℕ → InDevices × ℕ × ℕ → Hal → Type 0
Has i c h = (s : StreamIn) × (h.ins i ≡ some s) × (channels_of s ≡ c)

same_index : (i : ℕ) (x y : Option StreamIn) → (if i == i then x else y) ≡ x
same_index i x y = rw ((==_iff i i).1 refl) refl

pub put_same : (i : ℕ) (s : StreamIn) (h : Hal) → (put_in i s h).ins i ≡ some s
put_same i s h = rw ((==_iff i i).1 refl) refl

module _ (e : Env) where
  stop_input-Has : (i : ℕ) (s : StreamIn) (h : Hal) → Has i (channels_of s) (stop_input e i s h)
  unfolding stop_input
  stop_input-Has i s h = (_, same_index i _ _, refl)

  standby_of :
      (i : ℕ) (s : StreamIn) (h : Hal)
      → h.ins i ≡ some s
      → do_input_standby e i h ≡ (if s.standby then h else stop_input e i s h)
  unfolding do_input_standby
  standby_of i s h q =
      ap
        (λ (t : Option StreamIn). elim t [
          | none ↦ h
          | some s ↦ if s.standby then h else stop_input e i s h
        ])
        q

  pub do_input_standby-Has :
      (i : ℕ) (c : InDevices × ℕ × ℕ) (h : Hal) → Has i c h → Has i c (do_input_standby e i h)
  do_input_standby-Has i c h (s, q, k) = subst (Has i c) (sym (standby_of i s h q)) (
      if_both (Has i c) s.standby (s, q, k)
        (subst (λ d. Has i d (stop_input e i s h)) k (stop_input-Has i s h)))
