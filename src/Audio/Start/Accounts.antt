-- ===== src/Audio/Start/Accounts.antt =====
-- The PCMs of a stream of audio/audio_hw.c that is starting, counted beside the HAL.
use android_device_samsung_t.Base.{
  ℕ, ◌+◌, ◌≡◌, refl, ◌∙◌, Bool, false, Option, none, some, arith, Bool-cases, if◌then◌else◌, inl,
  inr, [], ◌∷◌, ◌++◌, List,
}
use android_device_samsung_t.Audio.Device.{
  Hal, Env, StreamOut, PcmType, pcm_normal, pcm_spdif, pcm_hdmi, PcmConfig, PcmFlags, pcm_out, emit,
  Call, pcm_opened, pcm_closed,
}
use android_device_samsung_t.Audio.Balance.{held_output, opens, closes, opens-append, closes-append}
use android_device_samsung_t.Audio.Start.{
  pcm_config_tones, rate_of, mm_low_power_sampling_rate, open_tone_normal, open_tone_spdif,
  open_tone_hdmi, put_pcm, put_config, open_pcm, open_tones, pcm_of, close_unready, not_a_dock,
  hdmi_free,
}

-- A stream beside the HAL: what it holds is counted on its own.
abbrev pub Accounted : ℕ → StreamOut × Hal → Type 0
Accounted n s = opens s.1.log ≡ closes s.1.log + (held_output (some s.0) + n)

pub Accounted-step :
    (n : ℕ) (o p : StreamOut) (h k : Hal) (cs : List Call)
    → k.log ≡ h.log ++ cs
    → opens cs + held_output (some o) ≡ closes cs + held_output (some p)
    → Accounted n (o, h)
    → Accounted n (p, k)
Accounted-step n o p h k cs l c a =
    rw (l, opens-append h.log cs, closes-append h.log cs) (omega arith)

open_pcm-Accounted :
    (n : ℕ) (t : PcmType) (card port : ℕ) (f : PcmFlags) (c : PcmConfig) (o : StreamOut) (h : Hal)
    → pcm_of t o ≡ none
    → Accounted n (o, h)
    → Accounted n (open_pcm t card port f c (o, h))
unfolding open_pcm
open_pcm-Accounted n t card port f c o h p a =
    Accounted-step n o (open_pcm t card port f c (o, h)).0 h (open_pcm t card port f c (o, h)).1
      (pcm_opened h.next_handle card port f c ∷ []) refl (one_more t p) a
  where
    one_more :
        (t : PcmType)
        → pcm_of t o ≡ none
        → 1 + held_output (some o)
          ≡ 0 + held_output (some (put_pcm t (some h.next_handle) (put_config t c o)))
    one_more pcm_normal p = rw p (omega arith)
    one_more pcm_spdif p = rw p (omega arith)
    one_more pcm_hdmi p = rw p (omega arith)

close_unready-Accounted :
    (e : Env) (n : ℕ) (t : PcmType) (b : Bool) (o : StreamOut) (h : Hal)
    → Accounted n (o, h)
    → Accounted n ((close_unready e t (b, o, h)).1, (close_unready e t (b, o, h)).2)
unfolding close_unready
close_unready-Accounted e n t b o h a = at (pcm_of t o) refl
  where
    one_less :
        (t : PcmType) (p : ℕ)
        → pcm_of t o ≡ some p
        → 0 + held_output (some o) ≡ 1 + held_output (some (put_pcm t none o))
    one_less pcm_normal p g = rw g (omega arith)
    one_less pcm_spdif p g = rw g (omega arith)
    one_less pcm_hdmi p g = rw g (omega arith)

    at :
        (q : Option ℕ)
        → pcm_of t o ≡ q
        → (λ (r : Bool × StreamOut × Hal). Accounted n (r.1, r.2))
            (elim q [
              | none ↦ (b, o, h)
              | some p ↦
                  if e.pcm_is_ready p
                  then (b, o, h)
                  else (false, put_pcm t none o, emit (pcm_closed (some p) ∷ []) h)
            ])
    at none g = a
    at (some p) g = elim (Bool-cases (e.pcm_is_ready p)) [
      | inl r ↦ simp r a
      | inr r ↦ simp r (
          Accounted-step n o (put_pcm t none o) h (emit (pcm_closed (some p) ∷ []) h)
            (pcm_closed (some p) ∷ []) refl (one_less t p g) a)
    ]

-- The rest of the state that counts.
abbrev pub Frame : Type 0
Frame = Option ℕ × Option ℕ × Option StreamOut × Option StreamOut × Option StreamOut

abbrev pub frame : Hal → Frame
frame h = (h.pcm_modem_dl, h.pcm_modem_ul, h.deep_buf, h.low_latency, h.hdmi)

-- Accounted, with the rest as it was.
abbrev pub Held : ℕ → Frame → StreamOut × Hal → Type 0
Held n f s = Accounted n s × (frame s.1 ≡ f)

open_pcm-Held :
    (n : ℕ) (f : Frame) (t : PcmType) (card port : ℕ) (w : PcmFlags) (c : PcmConfig)
    (s : StreamOut × Hal)
    → pcm_of t s.0 ≡ none
    → Held n f s
    → Held n f (open_pcm t card port w c s)
unfolding open_pcm
open_pcm-Held n f t card port w c s p a = (open_pcm-Accounted n t card port w c s.0 s.1 p a.0, a.1)

-- The PCMs that are still to be opened.
abbrev pub Before : ℕ → Frame → StreamOut × Hal → Type 0
Before n f s = Held n f s × (s.0.normal ≡ none) × (s.0.spdif ≡ none) × (s.0.hdmi ≡ none)

abbrev pub Between : ℕ → Frame → StreamOut × Hal → Type 0
Between n f s = Held n f s × (s.0.spdif ≡ none) × (s.0.hdmi ≡ none)

abbrev pub Last : ℕ → Frame → StreamOut × Hal → Type 0
Last n f s = Held n f s × (s.0.hdmi ≡ none)

abbrev pub tones : StreamOut × Hal → PcmConfig
tones s = record pcm_config_tones { rate = rate_of s.0.sample_rate }

open_tone_normal-Held :
    (n : ℕ) (f : Frame) (s : StreamOut × Hal) → Before n f s → Between n f (open_tone_normal s)
unfolding open_tone_normal open_pcm
open_tone_normal-Held n f s b = elim (Bool-cases (not_a_dock s.1.out_device)) [
  | inl c ↦ simp c (open_pcm-Held n f pcm_normal 0 3 pcm_out (tones s) s b.1 b.0, b.2, b.3)
  | inr c ↦ simp c (b.0, b.2, b.3)
]

open_tone_spdif-Held :
    (n : ℕ) (f : Frame) (s : StreamOut × Hal) → Between n f s → Last n f (open_tone_spdif s)
unfolding open_tone_spdif open_pcm
open_tone_spdif-Held n f s b = elim (Bool-cases s.1.out_device.dgtl_dock_headset) [
  | inl c ↦ simp c (open_pcm-Held n f pcm_spdif 0 9 pcm_out (tones s) s b.1 b.0, b.2)
  | inr c ↦ simp c (b.0, b.2)
]

open_tone_hdmi-Held :
    (n : ℕ) (f : Frame) (s : StreamOut × Hal) → Last n f s → Held n f (open_tone_hdmi s)
unfolding open_tone_hdmi
open_tone_hdmi-Held n f s b = elim (Bool-cases (hdmi_free s.1)) [
  | inl c ↦ simp c (
      open_pcm-Held n f pcm_hdmi 1 0 pcm_out
        (record pcm_config_tones { rate = mm_low_power_sampling_rate }) s b.1 b.0)
  | inr c ↦ simp c (b.0)
]

pub open_tones-Held :
    (n : ℕ) (f : Frame) (s : StreamOut × Hal) → Before n f s → Held n f (open_tones s)
unfolding open_tones
open_tones-Held n f s b =
    open_tone_hdmi-Held n f (open_tone_spdif (open_tone_normal s))
      (open_tone_spdif-Held n f (open_tone_normal s) (open_tone_normal-Held n f s b))

close_unready-frame :
    (e : Env) (t : PcmType) (r : Bool × StreamOut × Hal) → frame (close_unready e t r).2 ≡ frame r.2
unfolding close_unready
close_unready-frame e t r = ground arith

pub close_unready-Held :
    (e : Env) (n : ℕ) (f : Frame) (t : PcmType) (r : Bool × StreamOut × Hal)
    → Held n f (r.1, r.2)
    → Held n f ((close_unready e t r).1, (close_unready e t r).2)
close_unready-Held e n f t r a =
    (close_unready-Accounted e n t r.0 r.1 r.2 a.0, close_unready-frame e t r ∙ a.1)
