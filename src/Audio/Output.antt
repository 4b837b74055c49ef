-- ===== src/Audio/Output.antt =====
-- audio/audio_hw.c: the routes of outputs and inputs (set_eq_filter, set_incall_device,
-- select_output_device, select_input_device). They change no field of the device, so each is the
-- list of the calls that it makes.
pub mod Paths
pub mod Voice
pub mod Mute
pub mod NoPcm
pub mod Untouched
use Prim.Native.Nat.{bit_or}
use android_device_samsung_t.Base.{
  ℕ, Bool, true, false, not, ◌&&◌, ◌||◌, List, [], ◌∷◌, ◌++◌, Option, none, some, ◌==◌, is_some,
  if◌then◌else◌,
}
use android_device_samsung_t.Base.Int.{ℤ, pos}
use android_device_samsung_t.Audio.Mixer
use android_device_samsung_t.Audio.Mixer.{
  Ctl, EnumName, off, main_mic, hs_mic, sub_mic, lpf_4khz_0db, flat_response, MixerCall, set_enum,
  set_first, set_both, set_route_by_array, RouteSetting, dl1_equalizer, audul_voice_ul_volume,
  dl2_mixer_multimedia, dl2_mixer_tones, dl2_mixer_voice, dl1_mixer_multimedia, dl1_mixer_tones,
  dl1_mixer_voice, dl1_pdm_switch, dl1_bt_vx_switch, dl2_mono_mixer, earphone_enable_switch,
  analog_left_capture_route, analog_right_capture_route, sidetone_mixer_capture,
}
use android_device_samsung_t.Audio.Routes
use android_device_samsung_t.Audio.Ril.{
  AudioPath, handset, headset, speaker, bluetooth, bluetooth_no_nr, headphone,
  ril_set_call_audio_path,
}
use android_device_samsung_t.Audio.Device.{
  Hal, Env, OutDevices, no_out_device, out_eq, bit, sco_bits, Call, mixed, asked, StreamIn,
  active_stream, is_in_call, is_camcorder, is_voice_communication, TtyMode, tty_off, tty_vco,
  tty_hco, tty_full, tty_id,
}
use android_device_samsung_t.Audio.Gain.{set_output_volumes, set_input_volumes, mixer_abe_gain_0db}

-- A number as a truth value.
abbrev pub on : ℕ → Bool
on n = not (n == 0)

unfoldable pub set_eq_filter : Hal → List MixerCall
set_eq_filter a =
    let d = a.out_device in
    let dl1_eq_applicable = d.wired_headset || (d.wired_headphone || d.earpiece) in
    set_enum dl1_equalizer (
      if is_in_call a.mode && (dl1_eq_applicable && (tty_id a.tty_mode == 0 && a.wb_amr == 0))
      then lpf_4khz_0db
      else flat_response)
    ∷ []

-- The switch of set_incall_device over the whole mask.
pub call_audio_path : OutDevices → Bool → AudioPath
unfolding out_eq
call_audio_path d bluetooth_nrec =
    if out_eq d (record no_out_device { earpiece = true })
    then handset
    else (if out_eq d (record no_out_device { speaker = true })
        then speaker
        else (if out_eq d (record no_out_device { aux_digital = true })
            then speaker
            else (if out_eq d (record no_out_device { dgtl_dock_headset = true })
                then speaker
                else (if out_eq d (record no_out_device { wired_headset = true })
                    then headset
                    else (if out_eq d (record no_out_device { wired_headphone = true })
                        then headphone
                        else (if out_eq d (record no_out_device { bluetooth_sco = true })
                              || (out_eq d (record no_out_device { bluetooth_sco_headset = true })
                                  || out_eq d
                                      (record no_out_device { bluetooth_sco_carkit = true }))
                            then (if bluetooth_nrec then bluetooth else bluetooth_no_nr)
                            else handset))))))

unfoldable pub set_incall_device : Env → Hal → List Call
unfolding call_audio_path
set_incall_device e a =
    asked
      (ril_set_call_audio_path e.ril a.ril_handle (call_audio_path a.out_device a.bluetooth_nrec)).1

-- headset_on, headphone_on, speaker_on and earpiece_on.
pub record Outputs : Type 0 where
  pub headset_on : ℕ
  pub headphone_on : ℕ
  pub speaker_on : ℕ
  pub earpiece_on : ℕ

-- As the mask of devices has them.
abbrev pub device_outputs : OutDevices → Outputs
device_outputs d = record {
  headset_on = bit d.wired_headset 0x4;
  headphone_on = bit d.wired_headphone 0x8;
  speaker_on = bit d.speaker 0x2;
  earpiece_on = bit d.earpiece 0x1;
}

abbrev pub only_headphone : Outputs
only_headphone = record { headset_on = 0; headphone_on = 1; speaker_on = 0; earpiece_on = 0 }

abbrev pub only_headset : Outputs
only_headset = record { headset_on = 1; headphone_on = 0; speaker_on = 0; earpiece_on = 0 }

abbrev pub only_speaker : Outputs
only_speaker = record { headset_on = 0; headphone_on = 0; speaker_on = 1; earpiece_on = 0 }

-- The rx path in a call, without bluetooth, forced according to the TTY mode.
abbrev pub tty_rx : TtyMode → OutDevices → Outputs → Outputs
tty_rx tty_full d o = only_headphone
tty_rx tty_vco d o = only_headphone
tty_rx tty_hco d o = only_speaker
tty_rx tty_off d o = if d.aux_digital || d.dgtl_dock_headset then record o { speaker_on = 1 } else o

abbrev pub tty_volume_of : TtyMode → Bool
tty_volume_of tty_full = true
tty_volume_of tty_vco = true
tty_volume_of _ = false

-- The tx path in a call, without bluetooth.
abbrev pub tty_tx : TtyMode → Outputs → Outputs
tty_tx tty_full o = only_headset
tty_tx tty_hco o = only_headset
tty_tx tty_vco o = only_speaker
tty_tx tty_off o = o

unfoldable pub rx_outputs : Hal → Outputs
rx_outputs a =
    if is_in_call a.mode && not (on (sco_bits a.out_device))
    then tty_rx a.tty_mode a.out_device (device_outputs a.out_device)
    else device_outputs a.out_device

unfoldable pub tty_volume : Hal → Bool
tty_volume a = is_in_call a.mode && (not (on (sco_bits a.out_device)) && tty_volume_of a.tty_mode)

-- dl1_on, with the bluetooth bits.
unfoldable pub dl1_bits : Outputs → ℕ → ℕ
dl1_bits o bt_on = bit_or (bit_or (bit_or o.headset_on o.headphone_on) o.earpiece_on) bt_on

unfoldable pub front_end : Bool → Outputs → ℕ → List MixerCall
front_end in_call o bt_on =
    let dl1_on = dl1_bits o bt_on in
    set_first dl2_mixer_multimedia o.speaker_on
    ∷ set_first dl2_mixer_tones o.speaker_on
    ∷ set_first dl2_mixer_voice (bit (on o.speaker_on && in_call) 1)
    ∷ set_first dl1_mixer_multimedia dl1_on
    ∷ set_first dl1_mixer_tones dl1_on
    ∷ set_first dl1_mixer_voice (bit (on dl1_on && in_call) 1)
    ∷ []

unfoldable pub back_end : Bool → Outputs → ℕ → List MixerCall
back_end in_call o bt_on =
    set_first dl1_pdm_switch (bit_or (bit_or o.headset_on o.headphone_on) o.earpiece_on)
    ∷ set_first dl1_bt_vx_switch bt_on
    ∷ set_first dl2_mono_mixer (bit (not in_call && on o.speaker_on) 1)
    ∷ set_first earphone_enable_switch o.earpiece_on
    ∷ []

-- sidetone_capture_on, for the tx path of a call.
unfoldable pub sidetone_on : Hal → Outputs → ℕ → ℕ
sidetone_on a o bt_on = if is_in_call a.mode && not (on bt_on) then o.earpiece_on else 0

module _ (e : Env) where
  -- The calls of set_route_by_array, whose result the callers leave aside.
  abbrev pub route : List RouteSetting → Bool → List MixerCall
  route r enable = (set_route_by_array e.mixer r enable).1

  unfoldable pub output_stage : Outputs → List MixerCall
  output_stage o =
      route Routes.hs_output (on (bit_or o.headset_on o.headphone_on))
      ++ route Routes.hf_output (on o.speaker_on)

  -- The input path in a call without bluetooth.
  unfoldable pub call_capture : Hal → Outputs → List MixerCall
  call_capture a o =
      let main_on = on o.earpiece_on || on o.headphone_on in
      (if on o.headset_on || (on o.headphone_on || on o.earpiece_on)
        then route Routes.vx_ul_amic_left true
        else (if on o.speaker_on
            then route Routes.vx_ul_amic_right true
            else route Routes.vx_ul_amic_left false))
      ++ (set_enum analog_left_capture_route
            (if main_on then main_mic else (if on o.headset_on then hs_mic else off))
          ∷ set_enum analog_right_capture_route (if on o.speaker_on then sub_mic else off)
          ∷ set_input_volumes a main_on (on o.headset_on) (on o.speaker_on))

  -- The last part of select_output_device: the input path and the modem's path in a call.
  unfoldable pub call_paths : Hal → Outputs → ℕ → List Call
  call_paths a o bt_on =
      (if on bt_on then mixed (route Routes.vx_ul_bt true) else mixed (call_capture a o))
      ++ (set_incall_device e a ++ mixed (set_both audul_voice_ul_volume mixer_abe_gain_0db))

  -- Back end, output stage, equaliser and volumes, behind the front ends.
  unfoldable pub routes_behind : Hal → Outputs → ℕ → List MixerCall
  routes_behind a o bt_on =
      back_end (is_in_call a.mode) o bt_on
      ++ (output_stage o ++ (set_eq_filter a ++ set_output_volumes e a (tty_volume a)))

  unfoldable pub output_routes : Hal → Outputs → ℕ → List MixerCall
  unfolding routes_behind
  output_routes a o bt_on = front_end (is_in_call a.mode) o bt_on ++ routes_behind a o bt_on

  unfoldable pub select_output_device : Hal → List Call
  select_output_device a =
      let bt_on = sco_bits a.out_device in
      let rx = rx_outputs a in
      let tx = tty_tx a.tty_mode rx in
      mixed (if is_in_call a.mode then set_both audul_voice_ul_volume (pos 0) else [])
      ++ (mixed (output_routes a rx bt_on)
          ++ ((if is_in_call a.mode then call_paths a tx bt_on else [])
              ++ mixed (set_first sidetone_mixer_capture (sidetone_on a tx bt_on) ∷ [])))

-- AUDIO_CHANNEL_IN_FRONT_BACK is FRONT | BACK: 0x10 and 0x20.
abbrev pub in_front_back : ℕ
in_front_back = 0x30

abbrev pub uses_sub_mic : Hal → Bool
uses_sub_mic a = elim (active_stream a) [
  | none ↦ false
  | some s ↦ is_camcorder s.source || (a.out_device.speaker && is_voice_communication s.source)
]

abbrev pub is_multi_mic : Option StreamIn → Bool
is_multi_mic none = false
is_multi_mic (some s) = on s.aux_channels || s.main_channels == in_front_back

-- headset_on, main_mic_on and sub_mic_on of select_input_device.
pub record Mics : Type 0 where
  pub headset_on : Bool
  pub main_mic_on : Bool
  pub sub_mic_on : Bool

unfoldable pub chosen_mics : Hal → Mics
chosen_mics a =
    let sub = not (is_in_call a.mode) && uses_sub_mic a in
    if a.in_device.bluetooth_sco_headset
    then record { headset_on = false; main_mic_on = false; sub_mic_on = false }
    else (if sub
        then record { headset_on = false; main_mic_on = false; sub_mic_on = true }
        else record {
          headset_on = a.in_device.wired_headset;
          main_mic_on = a.in_device.builtin_mic;
          sub_mic_on = false;
        })

-- With both microphones in use, the other one is turned on as well.
unfoldable pub enabled_mics : Bool → Mics → Mics
enabled_mics multi m =
    if multi
    then (if m.main_mic_on
        then record m { sub_mic_on = true }
        else (if m.sub_mic_on then record m { main_mic_on = true } else m))
    else m

module _ (e : Env) where
  unfoldable pub capture_route : Bool → Mics → List MixerCall
  capture_route multi m =
      if multi
      then (if m.main_mic_on
          then route e Routes.mm_ul2_amic_dual_main_sub true
          else (if m.sub_mic_on
              then route e Routes.mm_ul2_amic_dual_sub_main true
              else route e Routes.mm_ul2_amic_dual_main_sub false))
      else (if m.main_mic_on || m.headset_on
          then route e Routes.mm_ul2_amic_left true
          else (if m.sub_mic_on
              then route e Routes.mm_ul2_amic_right true
              else route e Routes.mm_ul2_amic_left false))

  unfoldable pub select_input_device : Hal → List Call
  select_input_device a =
      let multi = is_multi_mic (active_stream a) in
      let m = chosen_mics a in
      let n = if a.in_device.bluetooth_sco_headset then m else enabled_mics multi m in
      mixed (
        (if a.in_device.bluetooth_sco_headset
          then route e Routes.mm_ul2_bt true
          else capture_route multi m
            ++ (set_enum analog_right_capture_route (if n.sub_mic_on then sub_mic else off)
                ∷ set_enum analog_left_capture_route
                    (if n.main_mic_on then main_mic else (if n.headset_on then hs_mic else off))
                ∷ []))
        ++ set_input_volumes a n.main_mic_on n.headset_on n.sub_mic_on)
