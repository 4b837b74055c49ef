-- ===== src/Audio/Device.antt =====
-- audio/audio_hw.h: the state of the HAL, and what surrounds it.
-- A mask of devices is a record of the bits that the code names, with the other bits as a number;
-- AUDIO_DEVICE_* bits are those of the platform's audio.h. An output stream lives in its slot of
-- `outputs` from its opening to its closing, so it is named by that slot; input streams are a store
-- with numbers for pointers. A float is its bit pattern. Locks are not modelled.
use android_device_samsung_t.Base.{
  ℕ, ◌+◌, Bool, true, false, not, ◌&&◌, List, [], ◌∷◌, ◌++◌, Option, none, some, ◌==◌,
  if◌then◌else◌, map,
}
use android_device_samsung_t.Base.Int.{ℤ}
use android_device_samsung_t.Audio.Mixer.{Mixer, MixerCall}
use android_device_samsung_t.Audio.Ril.{RilCall, RilEnv}

-- adev->out_device.
pub record OutDevices : Type 0 where
  pub earpiece : Bool
  pub speaker : Bool
  pub wired_headset : Bool
  pub wired_headphone : Bool
  pub bluetooth_sco : Bool
  pub bluetooth_sco_headset : Bool
  pub bluetooth_sco_carkit : Bool
  pub aux_digital : Bool
  pub dgtl_dock_headset : Bool
  pub other : ℕ

abbrev pub no_out_device : OutDevices
no_out_device = record {
  earpiece = false;
  speaker = false;
  wired_headset = false;
  wired_headphone = false;
  bluetooth_sco = false;
  bluetooth_sco_headset = false;
  bluetooth_sco_carkit = false;
  aux_digital = false;
  dgtl_dock_headset = false;
  other = 0;
}

abbrev pub same : Bool → Bool → Bool
same true b = b
same false b = not b

-- Equality of masks.
unfoldable pub out_eq : OutDevices → OutDevices → Bool
out_eq a b =
    same a.earpiece b.earpiece
    && (same a.speaker b.speaker
        && (same a.wired_headset b.wired_headset
            && (same a.wired_headphone b.wired_headphone
                && (same a.bluetooth_sco b.bluetooth_sco
                    && (same a.bluetooth_sco_headset b.bluetooth_sco_headset
                        && (same a.bluetooth_sco_carkit b.bluetooth_sco_carkit
                            && (same a.aux_digital b.aux_digital
                                && (same a.dgtl_dock_headset b.dgtl_dock_headset
                                    && a.other == b.other))))))))

-- mask & bit, as the number that the code hands on.
abbrev pub bit : Bool → ℕ → ℕ
bit b n = if b then n else 0

-- adev->out_device & AUDIO_DEVICE_OUT_ALL_SCO.
abbrev pub sco_bits : OutDevices → ℕ
sco_bits d =
    bit d.bluetooth_sco 0x10 + bit d.bluetooth_sco_headset 0x20 + bit d.bluetooth_sco_carkit 0x40

-- The masks of input devices, without AUDIO_DEVICE_BIT_IN.
pub record InDevices : Type 0 where
  pub builtin_mic : Bool
  pub wired_headset : Bool
  pub bluetooth_sco_headset : Bool
  pub back_mic : Bool
  pub other : ℕ

abbrev pub no_in_device : InDevices
no_in_device = record {
  builtin_mic = false;
  wired_headset = false;
  bluetooth_sco_headset = false;
  back_mic = false;
  other = 0;
}

unfoldable pub in_eq : InDevices → InDevices → Bool
in_eq a b =
    same a.builtin_mic b.builtin_mic
    && (same a.wired_headset b.wired_headset
        && (same a.bluetooth_sco_headset b.bluetooth_sco_headset
            && (same a.back_mic b.back_mic && a.other == b.other)))

-- audio_mode_t.
pub data Mode : Type 0 where
  invalid current normal ringtone in_call in_communication : Mode

abbrev pub mode_id : Mode → ℕ
mode_id invalid = 0
mode_id current = 1
mode_id normal = 2
mode_id ringtone = 3
mode_id in_call = 4
mode_id in_communication = 5

abbrev pub is_in_call : Mode → Bool
is_in_call in_call = true
is_in_call _ = false

-- audio_source_t, by the sources that the code names.
pub data Source : Type 0 where
  mic camcorder voice_recognition voice_communication : Source
  other_source : ℕ → Source

abbrev pub is_voice_communication : Source → Bool
is_voice_communication voice_communication = true
is_voice_communication _ = false

abbrev pub is_camcorder : Source → Bool
is_camcorder camcorder = true
is_camcorder _ = false

-- enum tty_modes.
pub data TtyMode : Type 0 where
  tty_off tty_vco tty_hco tty_full : TtyMode

abbrev pub tty_id : TtyMode → ℕ
tty_id tty_off = 0
tty_id tty_vco = 1
tty_id tty_hco = 2
tty_id tty_full = 3

-- struct pcm_config, of tinyalsa.
pub record PcmConfig : Type 0 where
  pub channels : ℕ
  pub rate : ℕ
  pub period_size : ℕ
  pub period_count : ℕ
  pub start_threshold : ℕ
  pub avail_min : ℕ

-- enum output_type and enum pcm_type.
pub data OutputType : Type 0 where
  deep_buf low_latency hdmi : OutputType

pub data PcmType : Type 0 where
  pcm_normal pcm_spdif pcm_hdmi : PcmType

-- struct tuna_stream_out; the arrays over pcm_type are three fields each.
pub record StreamOut : Type 0 where
  pub config_normal : PcmConfig
  pub config_spdif : PcmConfig
  pub config_hdmi : PcmConfig
  pub normal : Option ℕ
  pub spdif : Option ℕ
  pub hdmi : Option ℕ
  pub standby : Bool
  pub echo_reference : Option ℕ
  pub write_threshold : ℕ
  pub use_long_periods : Bool
  pub channel_mask : ℕ
  pub sup_channel_masks : List ℕ
  pub restart_periods_cnt : ℕ
  pub muted : Bool
  pub sample_rate : ℕ

-- struct tuna_stream_in, without the buffers' contents and the pre-processors.
pub record StreamIn : Type 0 where
  pub config : PcmConfig
  pub pcm : Option ℕ
  pub device : InDevices
  pub resampler : Option ℕ
  pub requested_rate : ℕ
  pub standby : Bool
  pub source : Source
  pub echo_reference : Option ℕ
  pub need_echo_reference : Bool
  pub read_buf_size : ℕ
  pub read_buf_frames : ℕ
  pub proc_buf_size : ℕ
  pub proc_buf_frames : ℕ
  pub ref_buf_size : ℕ
  pub ref_buf_frames : ℕ
  pub aux_channels_changed : Bool
  pub main_channels : ℕ
  pub aux_channels : ℕ

-- PCM_OUT, PCM_IN and PCM_OUT | PCM_MMAP | PCM_NOIRQ.
pub data PcmFlags : Type 0 where
  pcm_out pcm_in pcm_out_mmap_noirq : PcmFlags

-- The calls to the libraries, in the order in which the HAL makes them.
pub data Call : Type 0 where
  mixer_call : MixerCall → Call
  ril_call : RilCall → Call
  -- pcm_open(card, port, flags, config), and the handle that it returns.
  pcm_opened : ℕ → ℕ → ℕ → PcmFlags → PcmConfig → Call
  pcm_closed pcm_started pcm_stopped : Option ℕ → Call
  pcm_avail_min_set : Option ℕ → ℕ → Call
  -- echo reference and resampler: their creation and release, a write or a read of NULL.
  echo_created echo_released echo_write_null echo_read_null : ℕ → Call
  resampler_created resampler_released resampler_reset : ℕ → Call

-- struct tuna_audio_device, the global pcm_config_vx.rate and volume_steps_max, the input streams,
-- the next handles of the libraries, and the calls made so far, oldest first.
pub record Hal : Type 0 where
  pub mode : Mode
  pub out_device : OutDevices
  pub in_device : InDevices
  pub pcm_modem_dl : Option ℕ
  pub pcm_modem_ul : Option ℕ
  pub in_call : Bool
  pub voice_volume : ℕ
  pub active_input : Option ℕ
  pub deep_buf : Option StreamOut
  pub low_latency : Option StreamOut
  pub hdmi : Option StreamOut
  pub mic_mute : Bool
  pub tty_mode : TtyMode
  pub echo_reference : Option ℕ
  pub bluetooth_nrec : Bool
  pub wb_amr : ℕ
  pub screen_off : Bool
  pub ril_handle : Option ℕ
  pub vx_rate : ℕ
  pub volume_steps_max : ℤ
  pub ins : ℕ → Option StreamIn
  pub next_handle : ℕ
  pub log : List Call

-- What surrounds the HAL: the mixer and the RIL client, which PCM handles are ready after pcm_open
-- (which never returns NULL), whether an echo reference or a resampler can be created under the
-- handle, and the population count of a channel mask.
pub record Env : Type 0 where
  pub mixer : Mixer
  pub ril : RilEnv
  pub pcm_is_ready : ℕ → Bool
  pub echo_created_ok : ℕ → Bool
  pub resampler_created_ok : ℕ → Bool
  pub popcount : ℕ → ℕ

-- The calls of a routine that changes no field of the HAL.
abbrev pub emit : List Call → Hal → Hal
emit cs h = record h { log = h.log ++ cs }

abbrev pub mixed : List MixerCall → List Call
mixed = map mixer_call

abbrev pub asked : List RilCall → List Call
asked = map ril_call

-- pcm_open: a fresh handle.
abbrev pub pcm_open : ℕ → ℕ → PcmFlags → PcmConfig → Hal → Hal
pcm_open card port flags config h = record h {
  next_handle = h.next_handle + 1;
  log = h.log ++ pcm_opened h.next_handle card port flags config ∷ [];
}

-- adev->active_input, as the stream it points to.
abbrev pub active_stream : Hal → Option StreamIn
active_stream h = elim h.active_input [ none ↦ none | some i ↦ h.ins i ]

abbrev pub put_in : ℕ → StreamIn → Hal → Hal
put_in i s h = record h { ins = λ j. if i == j then some s else h.ins j }

-- adev->outputs[type].
abbrev pub get_output : OutputType → Hal → Option StreamOut
get_output deep_buf h = h.deep_buf
get_output low_latency h = h.low_latency
get_output hdmi h = h.hdmi

abbrev pub put_output : OutputType → Option StreamOut → Hal → Hal
put_output deep_buf o h = record h { deep_buf = o }
put_output low_latency o h = record h { low_latency = o }
put_output hdmi o h = record h { hdmi = o }

-- adev->outputs[type] != NULL && !adev->outputs[type]->standby.
abbrev pub is_running : Option StreamOut → Bool
is_running none = false
is_running (some o) = not o.standby
