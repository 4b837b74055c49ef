-- ===== src/Audio/Output/Mute.antt =====
-- The voice uplink of a call is silent while select_output_device of audio/audio_hw.c switches paths.
use android_device_samsung_t.Base.{
  ℕ, ◌≡◌, refl, Bool, true, false, List, [], ◌∷◌, ◌++◌, if◌then◌else◌, All, All-append,
  append_assoc,
}
use android_device_samsung_t.Base.Int.{pos}
use android_device_samsung_t.Audio.Mixer.{
  MixerCall, set_first, set_both, audul_voice_ul_volume, sidetone_mixer_capture,
}
use android_device_samsung_t.Audio.Mixer.Untouched.{
  Untouched, touches, route-Untouched_outside, append-Untouched,
}
use android_device_samsung_t.Audio.Routes
use android_device_samsung_t.Audio.Device.{
  Hal, Env, Call, mixer_call, mixed, asked, sco_bits, is_in_call,
}
use android_device_samsung_t.Audio.Ril.{RilCall}
use android_device_samsung_t.Audio.Gain.{mixer_abe_gain_0db}
use android_device_samsung_t.Audio.Output.{
  Outputs, route, on, front_end, routes_behind, set_incall_device, call_capture, call_paths,
  output_routes, select_output_device, rx_outputs, tty_tx, sidetone_on,
}
use android_device_samsung_t.Audio.Output.Untouched.{
  routes_behind-Untouched, call_capture-Untouched,
}

abbrev pub is_on_uplink : Call → Bool
is_on_uplink (mixer_call c) = touches audul_voice_ul_volume c
is_on_uplink _ = false

-- No call is on the volume of the voice uplink.
abbrev pub Quiet : List Call → Type 0
Quiet = All λ c. is_on_uplink c ≡ false

mixed-Quiet : (cs : List MixerCall) → Untouched audul_voice_ul_volume cs → Quiet (mixed cs)
mixed-Quiet [] h = tt
mixed-Quiet (c ∷ cs) h = (h.0, mixed-Quiet cs h.1)

asked-Quiet : (cs : List RilCall) → Quiet (asked cs)
asked-Quiet [] = tt
asked-Quiet (c ∷ cs) = (refl, asked-Quiet cs)

append-Quiet : (xs ys : List Call) → Quiet xs → Quiet ys → Quiet (xs ++ ys)
append-Quiet xs ys hx hy = All-append (λ c. is_on_uplink c ≡ false) xs ys hx hy

routes-Quiet : (e : Env) (a : Hal) (o : Outputs) (bt : ℕ) → Quiet (mixed (output_routes e a o bt))
unfolding output_routes
routes-Quiet e a o bt = mixed-Quiet _ (
    append-Untouched audul_voice_ul_volume (front_end (is_in_call a.mode) o bt)
      (routes_behind e a o bt)
      (unfold front_end in (refl, (refl, (refl, (refl, (refl, (refl, tt)))))))
      (routes_behind-Untouched audul_voice_ul_volume e a o bt refl refl refl refl))

-- The calls between the muting and the end of a switch in a call.
switching : Env → Hal → Outputs → ℕ → List Call
switching e a tx bt =
    (if on bt then mixed (route e Routes.vx_ul_bt true) else mixed (call_capture e a tx))
    ++ set_incall_device e a

switching-Quiet : (e : Env) (a : Hal) (tx : Outputs) (bt : ℕ) → Quiet (switching e a tx bt)
unfolding switching set_incall_device
switching-Quiet e a tx bt = append-Quiet _ _ (chosen (on bt)) (asked-Quiet _)
  where
    chosen :
        (b : Bool)
        → Quiet (if b then mixed (route e Routes.vx_ul_bt true) else mixed (call_capture e a tx))
    chosen true =
        mixed-Quiet _
          (route-Untouched_outside e.mixer audul_voice_ul_volume Routes.vx_ul_bt true refl)
    chosen false =
        mixed-Quiet _ (call_capture-Untouched audul_voice_ul_volume e a tx refl refl refl)

regroup {ℓ} :
    {A : Type ℓ} (m r x y u s : List A)
    → m ++ (r ++ ((x ++ (y ++ u)) ++ s)) ≡ m ++ ((r ++ (x ++ y)) ++ (u ++ s))
regroup m r x y u s = simp append_assoc

-- In a call, select_output_device first mutes both channels of the voice uplink, then makes all
-- changes of front ends, back ends, output stage, equaliser, volumes, input path and modem path with
-- no call on the uplink's volume, and then sets both channels back to 0 dB; only the sidetone switch
-- comes after. Outside of a call, no call of it is on the uplink's volume.
pub select_output_device-mutes :
    (e : Env) (a : Hal)
    → (is_in_call a.mode ≡ true
        → (between : List Call) × (s : ℕ) × (select_output_device e a
            ≡ mixed (set_both audul_voice_ul_volume (pos 0))
              ++ (between
                  ++ (mixed (set_both audul_voice_ul_volume mixer_abe_gain_0db)
                      ++ mixed (set_first sidetone_mixer_capture s ∷ []))))
          × Quiet between)
      × (is_in_call a.mode ≡ false → Quiet (select_output_device e a))
unfolding select_output_device call_paths switching
select_output_device-mutes e a = (
  λ h. (
    mixed (output_routes e a rx bt) ++ switching e a tx bt,
    sidetone_on a tx bt,
    rw h (
        regroup (mixed (set_both audul_voice_ul_volume (pos 0))) (mixed (output_routes e a rx bt))
          (if on bt then mixed (route e Routes.vx_ul_bt true) else mixed (call_capture e a tx))
          (set_incall_device e a) (mixed (set_both audul_voice_ul_volume mixer_abe_gain_0db))
          (mixed (set_first sidetone_mixer_capture (sidetone_on a tx bt) ∷ []))),
    append-Quiet _ _ (routes-Quiet e a rx bt) (switching-Quiet e a tx bt),
  ),
  λ h. rw h (append-Quiet (mixed (output_routes e a rx bt)) _ (routes-Quiet e a rx bt) (refl, tt)),
)
  where
    bt : ℕ
    bt = sco_bits a.out_device

    rx : Outputs
    rx = rx_outputs a

    tx : Outputs
    tx = tty_tx a.tty_mode rx
