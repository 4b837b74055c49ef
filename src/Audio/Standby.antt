-- ===== src/Audio/Standby.antt =====
-- audio/audio_hw.c: echo references, and the standby of output and input streams.
pub mod Frame
pub mod Closing
pub mod Slots
use android_device_samsung_t.Base.{
  ℕ, Bool, true, false, not, ◌&&◌, ◌||◌, List, [], ◌∷◌, ◌++◌, Option, none, some, ◌==◌, is_some,
  if◌then◌else◌, ◌▹◌,
}
use android_device_samsung_t.Audio.Routes
use android_device_samsung_t.Audio.Device.{
  Hal, Env, no_in_device, Call, pcm_closed, echo_created, echo_released, echo_write_null,
  echo_read_null, mixed, emit, StreamIn, StreamOut, put_in, OutputType, deep_buf, low_latency, hdmi,
  get_output, put_output, is_running, is_in_call,
}
use android_device_samsung_t.Audio.Output.{route, select_input_device}

-- p == q of pointers.
abbrev pub same_handle : Option ℕ → Option ℕ → Bool
same_handle none none = true
same_handle (some p) (some q) = p == q
same_handle _ _ = false

-- The calls that end a use of an echo reference by an output.
abbrev pub stop_writing : Option ℕ → List Call
stop_writing none = []
stop_writing (some r) = echo_write_null r ∷ []

-- add_echo_reference and remove_echo_reference, on the low latency output.
unfoldable pub add_echo_reference : Option ℕ → Hal → Hal
add_echo_reference reference h = elim h.low_latency [
  | none ↦ h
  | some o ↦ record h { low_latency = some (record o { echo_reference = reference }) }
]

unfoldable pub remove_echo_reference : Option ℕ → Hal → Hal
remove_echo_reference reference h = elim h.low_latency [
  | none ↦ h
  | some o ↦
      if same_handle o.echo_reference reference
      then emit (stop_writing reference)
          (record h { low_latency = some (record o { echo_reference = none }) })
      else h
]

abbrev pub release : Option ℕ → List Call
release none = []
release (some r) = echo_released r ∷ []

unfoldable pub put_echo_reference : Option ℕ → Hal → Hal
unfolding remove_echo_reference
put_echo_reference reference h =
    if is_some h.echo_reference && same_handle reference h.echo_reference
    then (if is_running h.low_latency then remove_echo_reference reference h else h)
      ▹ emit (release reference)
      ▹ (λ (k : Hal). record k { echo_reference = none })
    else h

-- The calls that close the PCMs of an output.
abbrev pub close_pcm : Option ℕ → List Call
close_pcm none = []
close_pcm (some p) = pcm_closed (some p) ∷ []

unfoldable pub close_pcms : StreamOut → List Call
close_pcms o = close_pcm o.normal ++ (close_pcm o.spdif ++ close_pcm o.hdmi)

abbrev pub all_outputs_in_standby : Hal → Bool
all_outputs_in_standby h =
    not (is_running h.deep_buf) && (not (is_running h.low_latency) && not (is_running h.hdmi))

-- The last part of do_output_standby.
unfoldable pub stop_echo : OutputType → Hal → Hal
stop_echo t h = elim (get_output t h) [
  | none ↦ h
  | some o ↦
      emit (stop_writing o.echo_reference)
        (put_output t (some (record o { echo_reference = none })) h)
]

-- The stream is stopped: its PCMs are closed.
unfoldable pub close_output : OutputType → StreamOut → Hal → Hal
unfolding close_pcms
close_output t o h =
    emit (close_pcms o) (
      put_output t (some (record o { standby = true; normal = none; spdif = none; hdmi = none })) h)

module _ (e : Env) where
  unfoldable pub stage_off : List Call
  stage_off = mixed (route e Routes.hs_output false ++ route e Routes.hf_output false)

  -- If in call, the output stage does not change.
  unfoldable pub stage_off_if_idle : Hal → Hal
  unfolding stage_off
  stage_off_if_idle h =
      if all_outputs_in_standby h && not (is_in_call h.mode) then emit stage_off h else h

  -- The body of do_output_standby on a stream that runs; `inner` is its own call on the low latency
  -- output, made for the HDMI output only.
  unfoldable pub stop_output : (Hal → Hal) → OutputType → StreamOut → Hal → Hal
  unfolding close_output stage_off_if_idle stop_echo
  stop_output inner t o h = close_output t o h ▹ stage_off_if_idle ▹ inner ▹ stop_echo t

  abbrev pub output_standby : (Hal → Hal) → OutputType → Hal → Hal
  output_standby inner t h = elim (get_output t h) [
    | none ↦ h
    | some o ↦ if o.standby then h else stop_output inner t o h
  ]

  unfoldable pub do_output_standby : OutputType → Hal → Hal
  unfolding stop_output
  do_output_standby hdmi h = output_standby (output_standby (λ k. k) low_latency) hdmi h
  do_output_standby t h = output_standby (λ k. k) t h

  -- The calls and the change of device when an input stops outside of a call.
  unfoldable pub input_path_off : Hal → Hal
  input_path_off h =
      if is_in_call h.mode
      then h
      else record h { in_device = no_in_device } ▹ (λ (k : Hal). emit (select_input_device e k) k)

  unfoldable pub drop_input_echo : Option ℕ → Hal → Hal
  unfolding put_echo_reference
  drop_input_echo none h = h
  drop_input_echo (some r) h = emit (echo_read_null r ∷ []) h ▹ put_echo_reference (some r)

  unfoldable pub stop_input : ℕ → StreamIn → Hal → Hal
  unfolding input_path_off drop_input_echo
  stop_input i s h =
      emit (pcm_closed s.pcm ∷ []) h
      ▹ (λ (k : Hal). record k { active_input = none })
      ▹ input_path_off
      ▹ drop_input_echo s.echo_reference
      ▹ put_in i (record s { pcm = none; echo_reference = none; standby = true })

  unfoldable pub do_input_standby : ℕ → Hal → Hal
  unfolding stop_input
  do_input_standby i h = elim (h.ins i) [
    | none ↦ h
    | some s ↦ if s.standby then h else stop_input i s h
  ]

  unfoldable pub force_all_standby : Hal → Hal
  unfolding do_output_standby do_input_standby
  force_all_standby h =
      (if is_running h.low_latency then do_output_standby low_latency h else h)
      ▹ (λ (k : Hal). elim k.active_input [ none ↦ k | some i ↦ do_input_standby i k ])
