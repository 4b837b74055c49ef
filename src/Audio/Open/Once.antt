-- ===== src/Audio/Open/Once.antt =====
-- One output stream of each type at a time: adev_open_output_stream of audio/audio_hw.c.
use android_device_samsung_t.Base.{
  ℕ, zero, suc, ◌≡◌, refl, subst, sym, ap, ◌∙◌, ◌⊎◌, inl, inr, Bool, true, false, Bool-cases,
  Option, none, some, is_some, arith,
}
use android_device_samsung_t.Audio.Mixer.{Status, ok, enosys}
use android_device_samsung_t.Audio.Device.{
  Hal, Env, OutDevices, StreamOut, OutputType, deep_buf, low_latency, hdmi, get_output, put_output,
}
use android_device_samsung_t.Audio.Standby.{do_output_standby}
use android_device_samsung_t.Audio.Open.{
  is_ok, AudioConfig, output_type, new_stream, reported, open_as, adev_open_output_stream,
  adev_close_output_stream, default_to, mm_low_power_sampling_rate,
}

new_stream_standby :
    (e : Env) (max : ℕ) (t : OutputType) (config : AudioConfig) (o : StreamOut)
    → new_stream e max t config ≡ some o
    → o.standby ≡ true
new_stream_standby e max deep_buf config o h = ground arith
new_stream_standby e max low_latency config o h = ground arith
new_stream_standby e max hdmi config o h = ground arith

put-put_none :
    (t : OutputType) (o : StreamOut) (h : Hal)
    → get_output t h ≡ none
    → put_output t none (put_output t (some o) h) ≡ h
put-put_none deep_buf o h g = ap (λ x. record h { deep_buf = x }) (sym g)
put-put_none low_latency o h g = ap (λ x. record h { low_latency = x }) (sym g)
put-put_none hdmi o h g = ap (λ x. record h { hdmi = x }) (sym g)

get-put : (t : OutputType) (o : Option StreamOut) (h : Hal) → get_output t (put_output t o h) ≡ o
get-put deep_buf o h = refl
get-put low_latency o h = refl
get-put hdmi o h = refl

standby_again :
    (e : Env) (t : OutputType) (o : StreamOut) (h : Hal)
    → o.standby ≡ true
    → do_output_standby e t (put_output t (some o) h) ≡ put_output t (some o) h
unfolding do_output_standby
standby_again e deep_buf o h s = simp s refl
standby_again e low_latency o h s = simp s refl
standby_again e hdmi o h s = simp s refl

close-new :
    (e : Env) (t : OutputType) (o : StreamOut) (h : Hal)
    → o.standby ≡ true
    → get_output t h ≡ none
    → adev_close_output_stream e t (put_output t (some o) h) ≡ h
unfolding adev_close_output_stream
close-new e t o h s g = ap (put_output t none) (standby_again e t o h s) ∙ put-put_none t o h g

-- What a failing open does to the config of the caller: nothing, or it puts the default in place of
-- a sample rate of 0.
abbrev pub IsDefaulted : AudioConfig → AudioConfig → Type 0
IsDefaulted config r =
    (r ≡ config)
    ⊎ ((config.sample_rate ≡ 0) × (r ≡ record config { sample_rate = mm_low_power_sampling_rate }))

-- What an open does to the state and the config.
abbrev pub Opens : Env → ℕ → OutputType → AudioConfig → Status × AudioConfig × Hal → Hal → Type 0
Opens e max t config r h =
    ((r.0 ≡ ok)
      × (get_output t h ≡ none)
      × ((c : AudioConfig) → (open_as e max t c r.2 ≡ (enosys, c, r.2)))
      × (adev_close_output_stream e t r.2 ≡ h))
    ⊎ ((is_ok r.0 ≡ false) × (r.2 ≡ h) × IsDefaulted config r.1)

busy :
    (e : Env) (max : ℕ) (t : OutputType) (config : AudioConfig) (o : StreamOut) (h : Hal)
    → open_as e max t config (put_output t (some o) h) ≡ (enosys, config, put_output t (some o) h)
unfolding open_as
busy e max deep_buf config o h = refl
busy e max low_latency config o h = refl
busy e max hdmi config o h = refl

-- With the slot free, and with it taken.
abbrev pub opened : OutputType → AudioConfig → Hal → Option StreamOut → Status × AudioConfig × Hal
opened t config h none = (enosys, config, h)
opened t config h (some o) = (ok, reported t o, put_output t (some o) h)

pub open_as_free :
    (e : Env) (max : ℕ) (t : OutputType) (config : AudioConfig) (h : Hal)
    → is_some (get_output t h) ≡ false
    → open_as e max t config h ≡ opened t config h (new_stream e max t config)
unfolding open_as
open_as_free e max t config h b = rw b (by_stream (new_stream e max t config))
  where
    by_stream :
        (q : Option StreamOut)
        → (elim q [
          | none ↦ (enosys, config, h)
          | some o ↦ (ok, reported t o, put_output t (some o) h)
        ])
          ≡ opened t config h q
    by_stream none = refl
    by_stream (some o) = refl

pub open_as_taken :
    (e : Env) (max : ℕ) (t : OutputType) (config : AudioConfig) (h : Hal)
    → is_some (get_output t h) ≡ true
    → open_as e max t config h ≡ (enosys, config, h)
unfolding open_as
open_as_taken e max t config h b = rw b refl

open_as_lem :
    (e : Env) (max : ℕ) (t : OutputType) (asked config : AudioConfig) (h : Hal)
    → IsDefaulted asked config
    → Opens e max t asked (open_as e max t config h) h
open_as_lem e max t asked config h c = elim (Bool-cases (is_some (get_output t h))) [
  | inl b ↦
      subst (λ r. Opens e max t asked r h) (sym (open_as_taken e max t config h b))
        (inr (refl, refl, c))
  | inr b ↦
      subst (λ r. Opens e max t asked r h) (sym (open_as_free e max t config h b))
        (at (new_stream e max t config) refl (none_of (get_output t h) b))
]
  where
    none_of : (p : Option StreamOut) → is_some p ≡ false → p ≡ none
    none_of p b = ground arith

    at :
        (q : Option StreamOut)
        → new_stream e max t config ≡ q
        → get_output t h ≡ none
        → Opens e max t asked (opened t config h q) h
    at none g n = inr (refl, refl, c)
    at (some o) g n = inl (
      refl,
      n,
      (λ c. busy e max t c o h),
      close-new e t o h (new_stream_standby e max t config o g) n,
    )

abbrev with_default : AudioConfig → AudioConfig
with_default config = record config {
  sample_rate = default_to mm_low_power_sampling_rate config.sample_rate;
}

rate_kept : (n : ℕ) → default_to mm_low_power_sampling_rate (suc n) ≡ suc n
rate_kept n = ground arith

defaulted : (config : AudioConfig) → IsDefaulted config (with_default config)
defaulted config = by_rate config.sample_rate refl
  where
    by_rate :
        (n : ℕ)
        → config.sample_rate ≡ n
        → IsDefaulted config
            (record config { sample_rate = default_to mm_low_power_sampling_rate n })
    by_rate zero q = inr (q, refl)
    by_rate (suc n) q = inl (ap (λ x. record config { sample_rate = x }) (rate_kept n ∙ sym q))

-- adev_open_output_stream either fails, and then changes nothing but a sample rate of 0 in the
-- caller's config, which may become the default of 44100; or it returns 0, and then there was no
-- stream of the type that the flags and devices ask for; while the new one is open, opening the
-- type again gives -ENOSYS and changes nothing, and closing it restores the state.
pub adev_open_output_stream-once :
    (e : Env) (max : ℕ) (allocated direct deep : Bool) (devices : OutDevices) (config : AudioConfig)
    (h : Hal)
    → Opens e max
        (output_type direct deep devices)
        config
        (adev_open_output_stream e max allocated direct deep devices config h)
        h
unfolding adev_open_output_stream
adev_open_output_stream-once e max true direct deep devices config h =
    open_as_lem e max (output_type direct deep devices) config (with_default config) h
      (defaulted config)
adev_open_output_stream-once e max false direct deep devices config h = inr (refl, refl, inl refl)
