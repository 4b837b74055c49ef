-- ===== src/Audio/Modem.antt =====
-- audio/audio_hw.c: the PCMs of the modem during a call.
pub mod Open
use android_device_samsung_t.Base.{
  ℕ, Bool, true, false, not, List, [], ◌∷◌, Option, none, some, ◌==◌, is_some, if◌then◌else◌, ◌▹◌,
}
use android_device_samsung_t.Audio.Mixer.{Status, ok, enomem}
use android_device_samsung_t.Audio.Device.{
  Hal, Env, PcmConfig, pcm_out, pcm_in, PcmFlags, pcm_open, pcm_closed, pcm_started, pcm_stopped,
  mixed, emit,
}
use android_device_samsung_t.Audio.Output.{set_eq_filter}

-- pcm_config_vx, at the global's rate.
abbrev pub pcm_config_vx : ℕ → PcmConfig
pcm_config_vx rate = record {
  channels = 2;
  rate = rate;
  period_size = 160;
  period_count = 2;
  start_threshold = 0;
  avail_min = 0;
}

abbrev pub port_modem : ℕ
port_modem = 5

-- adev->wb_amr ? VX_WB_SAMPLING_RATE : VX_NB_SAMPLING_RATE.
abbrev pub amr_rate : ℕ → ℕ
amr_rate wb_amr = if wb_amr == 0 then 8000 else 16000

abbrev pub open_dl : Hal → Hal
open_dl h = record (pcm_open 0 port_modem pcm_out (pcm_config_vx h.vx_rate) h) {
  pcm_modem_dl = some h.next_handle;
}

abbrev pub open_ul : Hal → Hal
open_ul h = record (pcm_open 0 port_modem pcm_in (pcm_config_vx h.vx_rate) h) {
  pcm_modem_ul = some h.next_handle;
}

-- The error exits.
abbrev pub err_open_dl : Hal → Status × Hal
err_open_dl h = (enomem, record (emit (pcm_closed h.pcm_modem_dl ∷ []) h) { pcm_modem_dl = none })

abbrev pub err_open_ul : Hal → Status × Hal
err_open_ul h =
    err_open_dl (record (emit (pcm_closed h.pcm_modem_ul ∷ []) h) { pcm_modem_ul = none })

abbrev pub start_both : Hal → Status × Hal
start_both h = (ok, emit (pcm_started h.pcm_modem_dl ∷ pcm_started h.pcm_modem_ul ∷ []) h)

module _ (e : Env) where
  -- From the second `if` of start_call on.
  unfoldable pub start_ul : Hal → Status × Hal
  start_ul h =
      if is_some h.pcm_modem_ul
      then start_both h
      else (if e.pcm_is_ready h.next_handle
          then start_both (open_ul h)
          else err_open_ul (open_ul h))

  unfoldable pub start_call : Hal → Status × Hal
  unfolding start_ul
  start_call a =
      let h = record a { vx_rate = amr_rate a.wb_amr } in
      if is_some h.pcm_modem_dl
      then start_ul h
      else (if e.pcm_is_ready h.next_handle then start_ul (open_dl h) else err_open_dl (open_dl h))

  unfoldable pub end_call : Hal → Hal
  end_call h =
      record (emit
        (pcm_stopped h.pcm_modem_dl
          ∷ pcm_stopped h.pcm_modem_ul
          ∷ pcm_closed h.pcm_modem_dl
          ∷ pcm_closed h.pcm_modem_ul
          ∷ [])
        h) { pcm_modem_dl = none; pcm_modem_ul = none }

  -- "reopen the modem PCMs at the new rate", for a value that has just changed.
  unfoldable pub reopen_modem : Hal → Hal
  unfolding start_call end_call
  reopen_modem h =
      end_call h ▹ (λ (k : Hal). emit (mixed (set_eq_filter k)) k) ▹ (λ (k : Hal). (start_call k).1)

  unfoldable pub audio_set_wb_amr_callback : ℕ → Hal → Hal
  unfolding reopen_modem
  audio_set_wb_amr_callback enable h =
      if h.wb_amr == enable
      then h
      else (if h.in_call
          then reopen_modem (record h { wb_amr = enable })
          else record h { wb_amr = enable })
