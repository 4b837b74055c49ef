-- ===== src/Audio/Standby/Frame.antt =====
-- What the standby functions of audio/audio_hw.c leave alone.
use android_device_samsung_t.Base.{
  ℕ, ◌≡◌, refl, Bool, true, false, Option, none, some, arith, Bool-cases, if◌then◌else◌, inl, inr,
  ◌∙◌,
}
use android_device_samsung_t.Audio.Device.{
  get_output, is_running, Hal, Env, Mode, OutDevices, OutputType, deep_buf, low_latency, hdmi,
  StreamOut, StreamIn,
}
use android_device_samsung_t.Audio.Standby.{
  close_output, stage_off_if_idle, stop_echo, stop_output, do_output_standby, output_standby,
  stop_input, do_input_standby, force_all_standby, input_path_off, drop_input_echo,
  put_echo_reference, remove_echo_reference,
}

-- The part of the state that no standby changes.
abbrev pub CallState : Type 0
CallState = Mode × Bool × Option ℕ × Option ℕ × OutDevices

abbrev pub call_state : Hal → CallState
call_state h = (h.mode, h.in_call, h.pcm_modem_dl, h.pcm_modem_ul, h.out_device)

stop_echo-call_state : (t : OutputType) (h : Hal) → call_state (stop_echo t h) ≡ call_state h
unfolding stop_echo
stop_echo-call_state deep_buf h = ground arith
stop_echo-call_state low_latency h = ground arith
stop_echo-call_state hdmi h = ground arith

pub put_echo_reference-call_state :
    (r : Option ℕ) (h : Hal) → call_state (put_echo_reference r h) ≡ call_state h
unfolding put_echo_reference remove_echo_reference
put_echo_reference-call_state r h = ground arith

close_output-call_state :
    (t : OutputType) (o : StreamOut) (h : Hal) → call_state (close_output t o h) ≡ call_state h
unfolding close_output
close_output-call_state deep_buf o h = refl
close_output-call_state low_latency o h = refl
close_output-call_state hdmi o h = refl

module _ (e : Env) where
  stage_off_if_idle-call_state : (h : Hal) → call_state (stage_off_if_idle e h) ≡ call_state h
  unfolding stage_off_if_idle
  stage_off_if_idle-call_state h = ground arith

  stop_output-call_state :
      (inner : Hal → Hal) (t : OutputType) (o : StreamOut) (h : Hal)
      → ((k : Hal) → call_state (inner k) ≡ call_state k)
      → call_state (stop_output e inner t o h) ≡ call_state h
  unfolding stop_output
  stop_output-call_state inner t o h frame =
      stop_echo-call_state t (inner g)
      ∙ frame g
      ∙ stage_off_if_idle-call_state (close_output t o h)
      ∙ close_output-call_state t o h
    where
      g : Hal
      g = stage_off_if_idle e (close_output t o h)

  output_standby-call_state :
      (inner : Hal → Hal) (t : OutputType) (h : Hal)
      → ((k : Hal) → call_state (inner k) ≡ call_state k)
      → call_state (output_standby e inner t h) ≡ call_state h
  unfolding stop_output
  output_standby-call_state inner t h frame = at (get_output t h)
    where
      at :
          (s : Option StreamOut)
          → call_state
              (elim s [ none ↦ h | some o ↦ if o.standby then h else stop_output e inner t o h ])
            ≡ call_state h
      at none = refl
      at (some o) = elim (Bool-cases o.standby) [
        | inl b ↦ rw b refl
        | inr b ↦ rw b (stop_output-call_state inner t o h frame)
      ]

  pub do_output_standby-call_state :
      (t : OutputType) (h : Hal) → call_state (do_output_standby e t h) ≡ call_state h
  unfolding do_output_standby
  do_output_standby-call_state deep_buf h =
      output_standby-call_state (λ k. k) deep_buf h (λ k. refl)
  do_output_standby-call_state low_latency h =
      output_standby-call_state (λ k. k) low_latency h (λ k. refl)
  do_output_standby-call_state hdmi h =
      output_standby-call_state (output_standby e (λ k. k) low_latency) hdmi h
        (λ k. output_standby-call_state (λ j. j) low_latency k (λ j. refl))

  input_path_off-call_state : (h : Hal) → call_state (input_path_off e h) ≡ call_state h
  unfolding input_path_off
  input_path_off-call_state h = ground arith

  drop_input_echo-call_state :
      (r : Option ℕ) (h : Hal) → call_state (drop_input_echo e r h) ≡ call_state h
  unfolding drop_input_echo
  drop_input_echo-call_state none h = refl
  drop_input_echo-call_state (some r) h = put_echo_reference-call_state (some r) _

  stop_input-call_state :
      (i : ℕ) (s : StreamIn) (h : Hal) → call_state (stop_input e i s h) ≡ call_state h
  unfolding stop_input
  stop_input-call_state i s h =
      drop_input_echo-call_state s.echo_reference _ ∙ input_path_off-call_state _

  pub do_input_standby-call_state :
      (i : ℕ) (h : Hal) → call_state (do_input_standby e i h) ≡ call_state h
  unfolding do_input_standby stop_input
  do_input_standby-call_state i h = at (h.ins i)
    where
      at :
          (s : Option StreamIn)
          → call_state (elim s [ none ↦ h | some s ↦ if s.standby then h else stop_input e i s h ])
            ≡ call_state h
      at none = refl
      at (some s) = elim (Bool-cases s.standby) [
        | inl b ↦ rw b refl
        | inr b ↦ rw b (stop_input-call_state i s h)
      ]

  pub force_all_standby-call_state : (h : Hal) → call_state (force_all_standby e h) ≡ call_state h
  unfolding force_all_standby
  force_all_standby-call_state h =
      at (if is_running h.low_latency then do_output_standby e low_latency h else h)
      ∙ outputs (is_running h.low_latency)
    where
      outputs :
          (b : Bool)
          → call_state (if b then do_output_standby e low_latency h else h) ≡ call_state h
      outputs true = do_output_standby-call_state low_latency h
      outputs false = refl

      at :
          (k : Hal)
          → call_state (elim k.active_input [ none ↦ k | some i ↦ do_input_standby e i k ])
            ≡ call_state k
      at k = on_input k.active_input
        where
          on_input :
              (a : Option ℕ)
              → call_state (elim a [ none ↦ k | some i ↦ do_input_standby e i k ]) ≡ call_state k
          on_input none = refl
          on_input (some i) = do_input_standby-call_state i k
