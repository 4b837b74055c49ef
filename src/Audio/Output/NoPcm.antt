-- ===== src/Audio/Output/NoPcm.antt =====
-- The output side of audio/audio_hw.c opens and closes no PCM.
use android_device_samsung_t.Base.{
  ℕ, ◌≡◌, refl, Bool, true, false, List, [], ◌∷◌, ◌++◌, if◌then◌else◌,
}
use android_device_samsung_t.Audio.Mixer.{
  MixerCall, set_both, set_first, audul_voice_ul_volume, sidetone_mixer_capture,
}
use android_device_samsung_t.Audio.Gain.{mixer_abe_gain_0db}
use android_device_samsung_t.Audio.Routes
use android_device_samsung_t.Audio.Ril.{RilCall}
use android_device_samsung_t.Audio.Device.{Hal, Env, Call, mixed, asked, sco_bits, is_in_call}
use android_device_samsung_t.Audio.Balance.{opens, closes, opens-append, closes-append}
use android_device_samsung_t.Audio.Output.{
  Outputs, route, on, set_incall_device, call_capture, call_paths, select_output_device, tty_tx,
  rx_outputs,
}

unfoldable pub NoPcm : List Call → Type 0
NoPcm cs = (opens cs ≡ 0) × (closes cs ≡ 0)

NoPcm-append : (xs ys : List Call) → NoPcm xs → NoPcm ys → NoPcm (xs ++ ys)
unfolding NoPcm
NoPcm-append xs ys p q =
    (rw (opens-append xs ys, p.0, q.0) refl, rw (closes-append xs ys, p.1, q.1) refl)

pub mixed-NoPcm : (cs : List MixerCall) → NoPcm (mixed cs)
unfolding NoPcm
mixed-NoPcm [] = (refl, refl)
mixed-NoPcm (c ∷ cs) = mixed-NoPcm cs

asked-NoPcm : (cs : List RilCall) → NoPcm (asked cs)
unfolding NoPcm
asked-NoPcm [] = (refl, refl)
asked-NoPcm (c ∷ cs) = asked-NoPcm cs

call_paths-NoPcm : (e : Env) (a : Hal) (tx : Outputs) (bt : ℕ) → NoPcm (call_paths e a tx bt)
unfolding call_paths set_incall_device
call_paths-NoPcm e a tx bt = NoPcm-append _ _ (input (on bt)) (
    NoPcm-append _ _ (asked-NoPcm _)
      (mixed-NoPcm (set_both audul_voice_ul_volume mixer_abe_gain_0db)))
  where
    input :
        (b : Bool)
        → NoPcm (if b then mixed (route e Routes.vx_ul_bt true) else mixed (call_capture e a tx))
    input true = mixed-NoPcm (route e Routes.vx_ul_bt true)
    input false = mixed-NoPcm (call_capture e a tx)

pub select_output_device-NoPcm : (e : Env) (a : Hal) → NoPcm (select_output_device e a)
unfolding select_output_device
select_output_device-NoPcm e a = NoPcm-append _ _ (mixed-NoPcm _) (
    NoPcm-append _ _ (mixed-NoPcm _) (
      NoPcm-append _ _ (paths (is_in_call a.mode))
        (mixed-NoPcm (set_first sidetone_mixer_capture _ ∷ []))))
  where
    paths :
        (b : Bool)
        → NoPcm (
            if b
            then call_paths e a (tty_tx a.tty_mode (rx_outputs a)) (sco_bits a.out_device)
            else [])
    paths true = call_paths-NoPcm e a (tty_tx a.tty_mode (rx_outputs a)) (sco_bits a.out_device)
    paths false = mixed-NoPcm []
