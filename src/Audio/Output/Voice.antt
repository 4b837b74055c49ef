-- ===== src/Audio/Output/Voice.antt =====
-- Where the voice of a call can be heard after select_output_device of audio/audio_hw.c.
use Prim.Native.Nat.{bit_or}
use android_device_samsung_t.Base.{
  ℕ, ◌+◌, ◌≡◌, refl, ◌∙◌, Bool, true, false, ◌&&◌, ◌||◌, some, arith, ◌⊎◌, inl, inr, Bool-cases,
}
use android_device_samsung_t.Base.Int.{pos}
use android_device_samsung_t.Audio.Mixer.{dl1_mixer_voice, dl2_mixer_voice}
use android_device_samsung_t.Audio.Device.{
  Hal, Env, OutDevices, sco_bits, is_in_call, bit, TtyMode, tty_off, tty_vco, tty_hco, tty_full,
}
use android_device_samsung_t.Audio.Output.{
  Outputs, on, front_end, select_output_device, rx_outputs, tty_rx, dl1_bits, device_outputs,
}
use android_device_samsung_t.Audio.Output.Paths.{left, is_dl1, is_dl2, select_left}

-- One of the devices that audio_hw.c names is among the outputs.
abbrev pub has_output : OutDevices → Bool
has_output d =
    d.earpiece
    || (d.speaker
        || (d.wired_headset
            || (d.wired_headphone
                || (d.bluetooth_sco
                    || (d.bluetooth_sco_headset
                        || (d.bluetooth_sco_carkit || (d.aux_digital || d.dgtl_dock_headset)))))))

-- A bit of the mask on dl1 makes dl1_on a number other than 0.
bits_on :
    (hs hp ep b1 b2 b3 : Bool)
    → (hs || (hp || (ep || (b1 || (b2 || b3))))) ≡ true
    → on (
        bit_or
          (bit_or (bit_or (bit hs 0x4) (bit hp 0x8)) (bit ep 0x1))
          (bit b1 0x10 + bit b2 0x20 + bit b3 0x40))
      ≡ true
bits_on hs hp ep b1 b2 b3 h = ground arith

zero_of : (n : ℕ) → on n ≡ false → n ≡ 0
zero_of n h = ground arith

-- Without bluetooth, for each TTY mode.
audible_tty :
    (t : TtyMode) (d : OutDevices)
    → on (sco_bits d) ≡ false
    → has_output d ≡ true
    → (on (tty_rx t d (device_outputs d)).speaker_on ≡ true)
      ⊎ (on (dl1_bits (tty_rx t d (device_outputs d)) (sco_bits d)) ≡ true)
unfolding dl1_bits
audible_tty tty_full d h k = rw (zero_of (sco_bits d) h) (inr refl)
audible_tty tty_vco d h k = rw (zero_of (sco_bits d) h) (inr refl)
audible_tty tty_hco d h k = inl refl
audible_tty tty_off d h k = elim (Bool-cases (d.aux_digital || d.dgtl_dock_headset)) [
  | inl dock ↦ inl (rw dock)
  | inr no_dock ↦ elim (Bool-cases d.speaker) [
    | inl sp ↦ inl (rw (no_dock, sp))
    | inr no_sp ↦ inr (
        rw no_dock (
          bits_on d.wired_headset d.wired_headphone d.earpiece d.bluetooth_sco
            d.bluetooth_sco_headset d.bluetooth_sco_carkit (ground arith)))
  ]
]

audible :
    (a : Hal)
    → is_in_call a.mode ≡ true
    → has_output a.out_device ≡ true
    → (on (rx_outputs a).speaker_on ≡ true)
      ⊎ (on (dl1_bits (rx_outputs a) (sco_bits a.out_device)) ≡ true)
unfolding rx_outputs
audible a h k = elim (Bool-cases (on (sco_bits a.out_device))) [
  | inl bt ↦ rw (h, bt) (inr (dl1_bluetooth a.out_device bt))
  | inr no_bt ↦ rw (h, no_bt) (audible_tty a.tty_mode a.out_device no_bt k)
]
  where
    dl1_bluetooth :
        (d : OutDevices)
        → on (sco_bits d) ≡ true
        → on (dl1_bits (device_outputs d) (sco_bits d)) ≡ true
    dl1_bluetooth d h =
        unfold dl1_bits in
        bits_on d.wired_headset d.wired_headphone d.earpiece d.bluetooth_sco d.bluetooth_sco_headset
          d.bluetooth_sco_carkit (ground arith)

-- After select_output_device the two voice front ends hold 0 or 1. Outside of a call both hold 0: no
-- voice path is open. In a call, if any output that the HAL names is selected, one of them holds 1,
-- whatever the TTY mode, HDMI and dock outputs included: the far end can be heard.
pub select_output_device-voice :
    (e : Env) (a : Hal)
    → (x : Bool) × (y : Bool) × (left dl1_mixer_voice (select_output_device e a)
        ≡ some (pos (bit x 1)))
      × (left dl2_mixer_voice (select_output_device e a) ≡ some (pos (bit y 1)))
      × (is_in_call a.mode ≡ false → (x ≡ false) × (y ≡ false))
      × (is_in_call a.mode ≡ true → has_output a.out_device ≡ true → (x || y) ≡ true)
select_output_device-voice e a = (
  on (dl1_bits rx bt) && is_in_call a.mode,
  on rx.speaker_on && is_in_call a.mode,
  select_left is_dl1 e a ∙ (unfold front_end in refl),
  select_left is_dl2 e a ∙ (unfold front_end in refl),
  λ h. ground arith,
  λ h k. ground (arith, audible a h k),
)
  where
    rx : Outputs
    rx = rx_outputs a

    bt : ℕ
    bt = sco_bits a.out_device
