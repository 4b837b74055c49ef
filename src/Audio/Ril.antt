-- ===== src/Audio/Ril.antt =====
-- audio/ril_interface.c, and the NULL guards of ril/libsecril-client/secril-client.cpp that its calls
-- meet first. Past those guards the client library is a parameter, as are the property store and the
-- floating-point product of ril_set_call_volume; a float is its 32-bit pattern.
use android_device_samsung_t.Base.{
  ℕ, Bool, not, List, [], ◌∷◌, ◌++◌, Option, none, some, ◌==◌, if◌then◌else◌,
}
use android_device_samsung_t.Base.Int.{ℤ, pos, negsuc, ltb_ℤ}

-- enum _SoundType and enum _AudioPath.
pub data SoundType : Type 0 where
  sound_type_voice sound_type_speaker sound_type_headset sound_type_btvoice : SoundType

pub data AudioPath : Type 0 where
  handset headset speaker bluetooth bluetooth_no_nr headphone : AudioPath

-- The requests to the client library, with the client that they name; `none` is NULL.
pub data RilCall : Type 0 where
  open_client register_unsolicited_handler : RilCall
  connect_rild get_wb_amr disconnect_rild close_client : Option ℕ → RilCall
  set_call_volume : Option ℕ → SoundType → ℤ → RilCall
  set_call_audio_path : Option ℕ → AudioPath → RilCall
  set_mute : Option ℕ → Bool → RilCall

-- The library's answers for a client that is not NULL, the property, and the product.
pub record RilEnv : Type 0 where
  pub is_connected : Bool
  pub connect_error : ℕ
  pub disconnect_error : ℕ
  pub close_error : ℕ
  pub request_error : ℕ
  pub open_client_result : Option ℕ
  pub volume_steps_property : ℤ
  pub times_steps : ℕ → ℤ → ℤ

abbrev pub ril_client_err_success : ℕ
ril_client_err_success = 0

abbrev pub ril_client_err_inval : ℕ
ril_client_err_inval = 3

abbrev pub volume_steps_default : ℤ
volume_steps_default = pos 5

module _ (e : RilEnv) where
  -- The number that isConnected_RILD returns: an error code for NULL.
  abbrev pub is_connected_rild : Option ℕ → ℕ
  is_connected_rild none = ril_client_err_inval
  is_connected_rild (some c) = if e.is_connected then 1 else 0

  abbrev pub connect_rild_result : Option ℕ → ℕ
  connect_rild_result none = ril_client_err_inval
  connect_rild_result (some c) = e.connect_error

  -- SetCallVolume, SetCallAudioPath and SetMute.
  abbrev pub request_result : Option ℕ → ℕ
  request_result none = ril_client_err_inval
  request_result (some c) = e.request_error

  unfoldable pub ril_connect_if_required : Option ℕ → ℤ × List RilCall
  ril_connect_if_required handle =
      if not (is_connected_rild handle == 0)
      then (pos 0, [])
      else (if not (connect_rild_result handle == ril_client_err_success)
          then (negsuc 0, connect_rild handle ∷ [])
          else (pos 0, connect_rild handle ∷ get_wb_amr handle ∷ []))

  -- A request behind ril_connect_if_required.
  unfoldable pub ril_request : Option ℕ → RilCall → ℤ × List RilCall
  unfolding ril_connect_if_required
  ril_request handle call =
      let (status, calls) = ril_connect_if_required handle in
      elim status [
        | negsuc n ↦ (pos 0, calls)
        | pos n ↦ (pos (request_result handle), calls ++ call ∷ [])
      ]

  unfoldable pub ril_set_call_volume : Option ℕ → ℤ → SoundType → ℕ → ℤ × List RilCall
  unfolding ril_request
  ril_set_call_volume handle volume_steps_max type volume =
      ril_request handle (set_call_volume handle type (e.times_steps volume volume_steps_max))

  unfoldable pub ril_set_call_audio_path : Option ℕ → AudioPath → ℤ × List RilCall
  unfolding ril_request
  ril_set_call_audio_path handle path = ril_request handle (set_call_audio_path handle path)

  unfoldable pub ril_set_mic_mute : Option ℕ → Bool → ℤ × List RilCall
  unfolding ril_request
  ril_set_mic_mute handle state = ril_request handle (set_mute handle state)

  -- The opened client is assigned to the parameter `ril_handle`, so the caller keeps its own; what
  -- the caller can see is the result, the calls, and volume_steps_max, if it is set.
  unfoldable pub ril_open : Option ℕ → ℤ → ℤ × ℤ × List RilCall
  ril_open none volume_steps_max = (negsuc 0, volume_steps_max, [])
  ril_open (some h) volume_steps_max = elim e.open_client_result [
    | none ↦ (negsuc 0, volume_steps_max, open_client ∷ [])
    | some c ↦ (
      pos 0,
      (if ltb_ℤ (pos 0) e.volume_steps_property
          then e.volume_steps_property
          else volume_steps_default),
      open_client ∷ register_unsolicited_handler ∷ [],
    )
  ]

  unfoldable pub ril_close : Option ℕ → ℤ × List RilCall
  ril_close none = (negsuc 0, [])
  ril_close (some h) =
      if not (e.disconnect_error == ril_client_err_success)
      then (negsuc 0, disconnect_rild (some h) ∷ [])
      else (if not (e.close_error == ril_client_err_success)
          then (negsuc 0, disconnect_rild (some h) ∷ close_client (some h) ∷ [])
          else (pos 0, disconnect_rild (some h) ∷ close_client (some h) ∷ []))
