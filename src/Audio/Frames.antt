-- ===== src/Audio/Frames.antt =====
-- The state of a call under the entry points of audio/audio_hw.c that leave it alone.
pub mod Streams
use android_device_samsung_t.Base.{
  ℕ, ◌≡◌, refl, sym, ap, ◌∙◌, Bool, true, false, not, ◌&&◌, subst, Option, none, some, is_some,
  arith, Bool-cases, if◌then◌else◌, inl, inr,
}
use android_device_samsung_t.Audio.Device.{
  Hal, Env, Mode, OutDevices, TtyMode, StreamOut, OutputType, deep_buf, low_latency, hdmi,
  get_output, put_output, is_in_call, out_eq, no_out_device, is_running,
}
use android_device_samsung_t.Audio.Standby.{do_output_standby, do_input_standby}
use android_device_samsung_t.Audio.Standby.Frame.{
  CallState, do_output_standby-call_state, do_input_standby-call_state,
}
use android_device_samsung_t.Audio.Mode.{adev_set_voice_volume, adev_set_mic_mute}
use android_device_samsung_t.Audio.Mode.InCall.{IsConsistent}
use android_device_samsung_t.Audio.Open.{
  output_type, new_stream, AudioConfig, adev_open_output_stream, adev_close_output_stream, open_as,
}
use android_device_samsung_t.Audio.Open.Once.{opened, open_as_free, open_as_taken}
use android_device_samsung_t.Audio.Params.{
  out_set_parameters, adev_set_parameters, stop_for_change, change_device, is_low_latency,
  needs_standby, set_bluetooth_nrec, set_screen_state, stop_active_input, set_tty_mode,
}

-- The part of the state that IsConsistent reads.
abbrev pub line : Hal → Mode × Bool × Option ℕ × Option ℕ
line h = (h.mode, h.in_call, h.pcm_modem_dl, h.pcm_modem_ul)

pub by_line : (h k : Hal) → line k ≡ line h → IsConsistent h → IsConsistent k
by_line h k s c =
    subst
      (λ (l : Mode × Bool × Option ℕ × Option ℕ).
        (l.1 ≡ is_in_call l.0)
        × (l.1 ≡ false → (l.2 ≡ none) × (l.3 ≡ none))
        × (is_some l.2 ≡ is_some l.3))
      (sym s) c

abbrev pub short : CallState → Mode × Bool × Option ℕ × Option ℕ
short c = (c.0, c.1, c.2, c.3)

pub set_voice_volume-line :
    (e : Env) (v : ℕ) (h : Hal) → line (adev_set_voice_volume e v h) ≡ line h
unfolding adev_set_voice_volume
set_voice_volume-line e v h = ground arith

pub set_mic_mute-line : (e : Env) (b : Bool) (h : Hal) → line (adev_set_mic_mute e b h) ≡ line h
unfolding adev_set_mic_mute
set_mic_mute-line e b h = ground arith

pub set_tty_mode-line : (e : Env) (t : TtyMode) (h : Hal) → line (set_tty_mode e t h) ≡ line h
unfolding set_tty_mode
set_tty_mode-line e t h = ground arith

pub set_parameters-line :
    (e : Env) (tty : Option (Option TtyMode)) (nrec screen : Option Bool) (h : Hal)
    → line (adev_set_parameters e tty nrec screen h) ≡ line h
unfolding adev_set_parameters
set_parameters-line e none nrec screen h = rest nrec screen h
  where
    rest :
        (nrec screen : Option Bool) (h : Hal)
        → line (set_screen_state e screen (set_bluetooth_nrec e nrec h)) ≡ line h
    rest none none h = refl
    rest none (some s) h = refl
    rest (some n) none h = refl
    rest (some n) (some s) h = refl
set_parameters-line e (some none) nrec screen h = refl
set_parameters-line e (some (some tty)) nrec screen h =
    rest nrec screen (set_tty_mode e tty h) ∙ set_tty_mode-line e tty h
  where
    rest :
        (nrec screen : Option Bool) (h : Hal)
        → line (set_screen_state e screen (set_bluetooth_nrec e nrec h)) ≡ line h
    rest none none h = refl
    rest none (some s) h = refl
    rest (some n) none h = refl
    rest (some n) (some s) h = refl

pub stop_for_change-line :
    (e : Env) (t : OutputType) (val : OutDevices) (h : Hal)
    → line (stop_for_change e t val h) ≡ line h
unfolding stop_for_change
stop_for_change-line e t val h =
    elim (Bool-cases (is_low_latency t && is_running h.low_latency && needs_standby val h)) [
      | inl b ↦ simp b (ap short (do_output_standby-call_state e t h))
      | inr b ↦ simp b refl
    ]

pub change_device-line :
    (e : Env) (t : OutputType) (val : OutDevices) (h : Hal)
    → line (change_device e t val h) ≡ line h
unfolding change_device
change_device-line e t val h = ground arith

pub stop_active_input-line :
    (e : Env) (b : Bool) (h : Hal) → line (stop_active_input e b h) ≡ line h
unfolding stop_active_input
stop_active_input-line e b h = at h.active_input b
  where
    at :
        (a : Option ℕ) (b : Bool)
        → line (elim a [ none ↦ h | some i ↦ if b then do_input_standby e i h else h ]) ≡ line h
    at none b = refl
    at (some i) true = ap short (do_input_standby-call_state e i h)
    at (some i) false = refl

pub set_routing-line :
    (e : Env) (t : OutputType) (val : Option OutDevices) (h : Hal)
    → line (out_set_parameters e t val h) ≡ line h
unfolding out_set_parameters
set_routing-line e t none h = refl
set_routing-line e t (some val) h =
    elim (Bool-cases (not (out_eq h.out_device val) && not (out_eq val no_out_device))) [
      | inl b ↦ simp b (
          stop_active_input-line e _ (change_device e t val (stop_for_change e t val h))
          ∙ change_device-line e t val (stop_for_change e t val h)
          ∙ stop_for_change-line e t val h)
      | inr b ↦ simp b refl
    ]

pub put_output-line :
    (t : OutputType) (o : Option StreamOut) (h : Hal) → line (put_output t o h) ≡ line h
put_output-line deep_buf o h = refl
put_output-line low_latency o h = refl
put_output-line hdmi o h = refl

pub close_output-line :
    (e : Env) (t : OutputType) (h : Hal) → line (adev_close_output_stream e t h) ≡ line h
unfolding adev_close_output_stream
close_output-line e t h =
    put_output-line t none (do_output_standby e t h) ∙ ap short (do_output_standby-call_state e t h)

pub open_as-line :
    (e : Env) (max : ℕ) (t : OutputType) (config : AudioConfig) (h : Hal)
    → line (open_as e max t config h).2 ≡ line h
open_as-line e max t config h = elim (Bool-cases (is_some (get_output t h))) [
  | inl b ↦ ap (λ r. line r.2) (open_as_taken e max t config h b)
  | inr b ↦ ap (λ r. line r.2) (open_as_free e max t config h b) ∙ at (new_stream e max t config)
]
  where
    at : (q : Option StreamOut) → line (opened t config h q).2 ≡ line h
    at none = refl
    at (some o) = put_output-line t (some o) h

pub open_output-line :
    (e : Env) (max : ℕ) (allocated direct deep : Bool) (devices : OutDevices) (config : AudioConfig)
    (h : Hal)
    → line (adev_open_output_stream e max allocated direct deep devices config h).2 ≡ line h
unfolding adev_open_output_stream
open_output-line e max false direct deep devices config h = refl
open_output-line e max true direct deep devices config h =
    open_as-line e max (output_type direct deep devices) _ h
