-- ===== src/Audio/Params.antt =====
-- audio/audio_hw.c: parameters of the device and of the output streams.
-- str_parms and atoi belong to the platform: a parameter arrives as the value that they read from
-- the key's string, or not at all.
use android_device_samsung_t.Base.{
  Bool, true, false, not, ◌&&◌, ◌||◌, Option, none, some, ◌==◌, if◌then◌else◌, ◌▹◌,
}
use android_device_samsung_t.Audio.Device.{
  Hal, Env, OutDevices, no_out_device, out_eq, same, TtyMode, tty_id, is_voice_communication,
  OutputType, low_latency, hdmi, emit, is_running, is_in_call, active_stream,
}
use android_device_samsung_t.Audio.Output.{select_output_device}
use android_device_samsung_t.Audio.Standby.{do_output_standby, do_input_standby}

-- a ^ b of a bit.
abbrev pub differ : Bool → Bool → Bool
differ a b = not (same a b)

-- Whether the low latency output must stop for the change of device.
abbrev pub needs_standby : OutDevices → Hal → Bool
needs_standby val h =
    differ val.aux_digital h.out_device.aux_digital
    || (differ val.dgtl_dock_headset h.out_device.dgtl_dock_headset
        || ((h.out_device.aux_digital || h.out_device.dgtl_dock_headset)
            || (differ val.speaker h.out_device.speaker || is_in_call h.mode)))

-- force_input_standby, for an output that runs.
abbrev pub forces_input : Hal → Bool
forces_input h = elim (active_stream h) [ none ↦ false | some i ↦ is_voice_communication i.source ]

abbrev pub is_low_latency : OutputType → Bool
is_low_latency low_latency = true
is_low_latency _ = false

abbrev pub is_hdmi : OutputType → Bool
is_hdmi hdmi = true
is_hdmi _ = false

module _ (e : Env) where
  unfoldable pub stop_for_change : OutputType → OutDevices → Hal → Hal
  stop_for_change t val h =
      if is_low_latency t && is_running h.low_latency && needs_standby val h
      then do_output_standby e t h
      else h

  unfoldable pub change_device : OutputType → OutDevices → Hal → Hal
  change_device t val h =
      if is_hdmi t
      then h
      else record h { out_device = val } ▹ (λ (k : Hal). emit (select_output_device e k) k)

  unfoldable pub stop_active_input : Bool → Hal → Hal
  stop_active_input force h = elim h.active_input [
    | none ↦ h
    | some i ↦ if force then do_input_standby e i h else h
  ]

  -- The routing parameter, if the string has it.
  unfoldable pub out_set_parameters : OutputType → Option OutDevices → Hal → Hal
  unfolding stop_for_change change_device stop_active_input
  out_set_parameters t none h = h
  out_set_parameters t (some val) h =
      if not (out_eq h.out_device val) && not (out_eq val no_out_device)
      then stop_for_change t val h
        ▹ change_device t val
        ▹ stop_active_input (is_low_latency t && is_running h.low_latency && forces_input h)
      else h

  -- The TTY parameter; the value is one of the four names or none of them.
  unfoldable pub set_tty_mode : TtyMode → Hal → Hal
  set_tty_mode tty h =
      if tty_id tty == tty_id h.tty_mode
      then h
      else record h { tty_mode = tty }
        ▹ (λ (k : Hal). if is_in_call k.mode then emit (select_output_device e k) k else k)

  abbrev pub set_bluetooth_nrec : Option Bool → Hal → Hal
  set_bluetooth_nrec none h = h
  set_bluetooth_nrec (some on) h = record h { bluetooth_nrec = on }

  abbrev pub set_screen_state : Option Bool → Hal → Hal
  set_screen_state none h = h
  set_screen_state (some on) h = record h { screen_off = not on }

  -- `some none` is a TTY value without a name: -EINVAL, before the other two parameters.
  unfoldable pub adev_set_parameters :
      Option (Option TtyMode) → Option Bool → Option Bool → Hal → Hal
  unfolding set_tty_mode
  adev_set_parameters none nrec screen h = h ▹ set_bluetooth_nrec nrec ▹ set_screen_state screen
  adev_set_parameters (some none) nrec screen h = h
  adev_set_parameters (some (some tty)) nrec screen h =
      set_tty_mode tty h ▹ set_bluetooth_nrec nrec ▹ set_screen_state screen
