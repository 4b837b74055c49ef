-- ===== src/Audio/Output/Paths.antt =====
-- Where the voice of a call goes after select_output_device of audio/audio_hw.c.
use android_device_samsung_t.Base.{
  ℕ, ◌≡◌, refl, ap, ◌∙◌, Bool, true, false, List, [], ◌∷◌, ◌++◌, ap₂, Option, none, if◌then◌else◌,
  ◌<|>◌,
}
use android_device_samsung_t.Base.Int.{ℤ, pos}
use android_device_samsung_t.Audio.Mixer.{
  Ctl, MixerCall, set_first, set_both, dl1_mixer_voice, dl2_mixer_voice, audul_voice_ul_volume,
  sidetone_mixer_capture,
}
use android_device_samsung_t.Audio.Mixer.LastValue.{last_value, last_value-append}
use android_device_samsung_t.Audio.Mixer.Untouched.{
  Untouched, last_value-Untouched, route-Untouched_outside,
}
use android_device_samsung_t.Audio.Routes
use android_device_samsung_t.Audio.Ril.{RilCall, ril_set_call_audio_path}
use android_device_samsung_t.Audio.Device.{
  Hal, Env, Call, mixer_call, mixed, asked, sco_bits, is_in_call,
}
use android_device_samsung_t.Audio.Gain.{mixer_abe_gain_0db}
use android_device_samsung_t.Audio.Output.{
  Outputs, route, on, front_end, routes_behind, call_capture, call_paths, output_routes,
  set_incall_device, select_output_device, rx_outputs, tty_tx, sidetone_on, call_audio_path,
}
use android_device_samsung_t.Audio.Output.Untouched.{
  routes_behind-Untouched, call_capture-Untouched,
}

-- The calls on the mixer, of a list of calls.
abbrev pub mixer_calls : List Call → List MixerCall
mixer_calls [] = []
mixer_calls (mixer_call c ∷ cs) = c ∷ mixer_calls cs
mixer_calls (_ ∷ cs) = mixer_calls cs

mixer_calls-append : (xs ys : List Call) → mixer_calls (xs ++ ys) ≡ mixer_calls xs ++ mixer_calls ys
mixer_calls-append [] ys = refl
mixer_calls-append (mixer_call c ∷ xs) ys = ap (λ t. c ∷ t) (mixer_calls-append xs ys)
mixer_calls-append (_ ∷ xs) ys = mixer_calls-append xs ys

mixer_calls-mixed : (cs : List MixerCall) → mixer_calls (mixed cs) ≡ cs
mixer_calls-mixed [] = refl
mixer_calls-mixed (c ∷ cs) = ap (λ t. c ∷ t) (mixer_calls-mixed cs)

mixer_calls-asked : (cs : List RilCall) → mixer_calls (asked cs) ≡ []
mixer_calls-asked [] = refl
mixer_calls-asked (c ∷ cs) = mixer_calls-asked cs

-- What the mixer is left with, by the calls in order.
abbrev pub left : Ctl → List Call → Option ℤ
left c calls = last_value c 0 (mixer_calls calls)

left-append : (c : Ctl) (xs ys : List Call) → left c (xs ++ ys) ≡ (left c ys <|> left c xs)
left-append c xs ys =
    rw (mixer_calls-append xs ys) (last_value-append c 0 (mixer_calls xs) (mixer_calls ys))

left-mixed : (c : Ctl) (cs : List MixerCall) → left c (mixed cs) ≡ last_value c 0 cs
left-mixed c cs = ap (last_value c 0) (mixer_calls-mixed cs)

-- The two controls of the voice front ends are outside of all arrays and of the other parts.
pub data IsVoice : Ctl → Type 0 where
  is_dl1 : IsVoice dl1_mixer_voice
  is_dl2 : IsVoice dl2_mixer_voice

routes_left :
    {c : Ctl} (v : IsVoice c) (e : Env) (a : Hal) (o : Outputs) (bt : ℕ)
    → left c (mixed (output_routes e a o bt)) ≡ last_value c 0 (front_end (is_in_call a.mode) o bt)
unfolding output_routes
routes_left {c} v e a o bt =
    left-mixed c (front_end (is_in_call a.mode) o bt ++ routes_behind e a o bt)
    ∙ last_value-append c 0 (front_end (is_in_call a.mode) o bt) (routes_behind e a o bt)
    ∙ rw (last_value-Untouched c 0 (routes_behind e a o bt) (behind v))
  where
    behind : {c : Ctl} → IsVoice c → Untouched c (routes_behind e a o bt)
    behind is_dl1 = routes_behind-Untouched dl1_mixer_voice e a o bt refl refl refl refl
    behind is_dl2 = routes_behind-Untouched dl2_mixer_voice e a o bt refl refl refl refl

set_incall_left : (c : Ctl) (e : Env) (a : Hal) → left c (set_incall_device e a) ≡ none
unfolding set_incall_device
set_incall_left c e a = ap (last_value c 0) (
    mixer_calls-asked
      (ril_set_call_audio_path e.ril a.ril_handle
        (call_audio_path a.out_device a.bluetooth_nrec)).1)

capture-Untouched :
    {c : Ctl} (v : IsVoice c) (e : Env) (a : Hal) (o : Outputs) → Untouched c (call_capture e a o)
capture-Untouched is_dl1 e a o = call_capture-Untouched dl1_mixer_voice e a o refl refl refl
capture-Untouched is_dl2 e a o = call_capture-Untouched dl2_mixer_voice e a o refl refl refl

bluetooth-Untouched :
    {c : Ctl} (v : IsVoice c) (e : Env) → Untouched c (route e Routes.vx_ul_bt true)
bluetooth-Untouched is_dl1 e =
    route-Untouched_outside e.mixer dl1_mixer_voice Routes.vx_ul_bt true refl
bluetooth-Untouched is_dl2 e =
    route-Untouched_outside e.mixer dl2_mixer_voice Routes.vx_ul_bt true refl

input_left :
    {c : Ctl} (v : IsVoice c) (e : Env) (a : Hal) (o : Outputs) (b : Bool)
    → left c (if b then mixed (route e Routes.vx_ul_bt true) else mixed (call_capture e a o)) ≡ none
input_left {c} v e a o true =
    left-mixed c (route e Routes.vx_ul_bt true)
    ∙ last_value-Untouched c 0 (route e Routes.vx_ul_bt true) (bluetooth-Untouched v e)
input_left {c} v e a o false =
    left-mixed c (call_capture e a o)
    ∙ last_value-Untouched c 0 (call_capture e a o) (capture-Untouched v e a o)

uplink_left :
    {c : Ctl} → IsVoice c → (z : ℤ) → left c (mixed (set_both audul_voice_ul_volume z)) ≡ none
uplink_left is_dl1 z = refl
uplink_left is_dl2 z = refl

sidetone_left :
    {c : Ctl}
    → IsVoice c
    → (n : ℕ) → left c (mixed (set_first sidetone_mixer_capture n ∷ [])) ≡ none
sidetone_left is_dl1 n = refl
sidetone_left is_dl2 n = refl

-- The input path of a call leaves the voice front ends alone.
left-call_paths :
    {c : Ctl} (v : IsVoice c) (e : Env) (a : Hal) (o : Outputs) (bt : ℕ)
    → left c (call_paths e a o bt) ≡ none
unfolding call_paths
left-call_paths {c} v e a o bt =
    left-append c input (set_incall_device e a ++ uplink)
    ∙ ap₂ ◌<|>◌
        (left-append c (set_incall_device e a) uplink
          ∙ ap₂ ◌<|>◌ (uplink_left v mixer_abe_gain_0db) (set_incall_left c e a))
        (input_left v e a o (on bt))
  where
    input : List Call
    input = if on bt then mixed (route e Routes.vx_ul_bt true) else mixed (call_capture e a o)

    uplink : List Call
    uplink = mixed (set_both audul_voice_ul_volume mixer_abe_gain_0db)

-- The voice front ends are left as the front-end calls have them.
pub select_left :
    {c : Ctl} (v : IsVoice c) (e : Env) (a : Hal)
    → left c (select_output_device e a) ≡ (
        last_value c 0 (front_end (is_in_call a.mode) (rx_outputs a) (sco_bits a.out_device))
        <|> none)
unfolding select_output_device
select_left {c} v e a =
    left-append c muting (routes ++ (paths ++ sidetone))
    ∙ ap₂ ◌<|>◌
        (left-append c routes (paths ++ sidetone)
          ∙ ap₂ ◌<|>◌
              (left-append c paths sidetone
                ∙ ap₂ ◌<|>◌ (sidetone_left v _) (paths_left (is_in_call a.mode)))
              (routes_left v e a (rx_outputs a) (sco_bits a.out_device)))
        (muting_left (is_in_call a.mode))
  where
    tx : Outputs
    tx = tty_tx a.tty_mode (rx_outputs a)

    muting : List Call
    muting = mixed (if is_in_call a.mode then set_both audul_voice_ul_volume (pos 0) else [])

    routes : List Call
    routes = mixed (output_routes e a (rx_outputs a) (sco_bits a.out_device))

    paths : List Call
    paths = if is_in_call a.mode then call_paths e a tx (sco_bits a.out_device) else []

    sidetone : List Call
    sidetone =
        mixed (set_first sidetone_mixer_capture (sidetone_on a tx (sco_bits a.out_device)) ∷ [])

    paths_left :
        (b : Bool) → left c (if b then call_paths e a tx (sco_bits a.out_device) else []) ≡ none
    paths_left true = left-call_paths v e a tx (sco_bits a.out_device)
    paths_left false = refl

    muting_left :
        (b : Bool)
        → left c (mixed (if b then set_both audul_voice_ul_volume (pos 0) else [])) ≡ none
    muting_left true = uplink_left v (pos 0)
    muting_left false = refl
