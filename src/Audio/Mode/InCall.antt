-- ===== src/Audio/Mode/InCall.antt =====
-- The state of a call under adev_set_mode of audio/audio_hw.c.
use android_device_samsung_t.Base.{
  ◌≡◌, refl, ap, ◌∙◌, ◌==◌, true, false, none, arith, Bool-cases, inl, inr, is_some,
}
use android_device_samsung_t.Audio.Device.{
  Hal, Env, Mode, invalid, current, normal, ringtone, in_call, in_communication, mode_id,
  is_in_call,
}
use android_device_samsung_t.Audio.Modem.{start_call, start_ul, end_call}
use android_device_samsung_t.Audio.Standby.{force_all_standby}
use android_device_samsung_t.Audio.Standby.Frame.{call_state, force_all_standby-call_state}
use android_device_samsung_t.Audio.Mode.{
  without_speaker, enter_call, leave_call, select_mode, adev_set_mode, apply_outputs,
}

-- in_call agrees with the mode, and the modem holds its two PCMs together, and none without a call.
abbrev pub IsConsistent : Hal → Type 0
IsConsistent h =
    (h.in_call ≡ is_in_call h.mode)
    × (h.in_call ≡ false → (h.pcm_modem_dl ≡ none) × (h.pcm_modem_ul ≡ none))
    × (is_some h.pcm_modem_dl ≡ is_some h.pcm_modem_ul)

start_call-frame :
    (e : Env) (h : Hal)
    → ((start_call e h).1.mode ≡ h.mode) × ((start_call e h).1.out_device ≡ h.out_device)
unfolding start_call start_ul
start_call-frame e h = ground arith

pub start_call-together :
    (e : Env) (h : Hal)
    → h.pcm_modem_dl ≡ none
    → h.pcm_modem_ul ≡ none
    → is_some (start_call e h).1.pcm_modem_dl ≡ is_some (start_call e h).1.pcm_modem_ul
unfolding start_call start_ul
start_call-together e h dl ul = ground arith

without_speaker_lem :
    (h : Hal)
    → ((without_speaker h).out_device.speaker ≡ false)
      × ((without_speaker h).mode ≡ h.mode)
      × ((without_speaker h).pcm_modem_dl ≡ h.pcm_modem_dl)
      × ((without_speaker h).pcm_modem_ul ≡ h.pcm_modem_ul)
unfolding without_speaker
without_speaker_lem h = ground arith

-- What a call that is entered looks like.
abbrev pub EnterFacts : Env → Hal → Type 0
EnterFacts e h =
    ((enter_call e h).mode ≡ h.mode)
    × ((enter_call e h).in_call ≡ true)
    × ((enter_call e h).out_device.speaker ≡ false)
    × (is_some (enter_call e h).pcm_modem_dl ≡ is_some (enter_call e h).pcm_modem_ul)

enter_call_lem :
    (e : Env) (h : Hal) → h.pcm_modem_dl ≡ none → h.pcm_modem_ul ≡ none → EnterFacts e h
unfolding enter_call
enter_call_lem e h dl ul = (
  (start_call-frame e g).0 ∙ (without_speaker_lem f).1 ∙ ap (λ x. x.0) frame,
  refl,
  ap (λ d. d.speaker) (start_call-frame e g).1 ∙ (without_speaker_lem f).0,
  start_call-together e g ((without_speaker_lem f).2 ∙ ap (λ x. x.2) frame ∙ dl)
      ((without_speaker_lem f).3 ∙ ap (λ x. x.3) frame ∙ ul),
)
  where
    f : Hal
    f = force_all_standby e h

    g : Hal
    g = apply_outputs e (without_speaker f)

    frame : call_state f ≡ call_state h
    frame = force_all_standby-call_state e h

abbrev pub LeaveFacts : Env → Hal → Type 0
LeaveFacts e h =
    ((leave_call e h).mode ≡ h.mode)
    × ((leave_call e h).in_call ≡ false)
    × ((leave_call e h).pcm_modem_dl ≡ none)
    × ((leave_call e h).pcm_modem_ul ≡ none)

leave_call_lem : (e : Env) (h : Hal) → LeaveFacts e h
unfolding leave_call end_call
leave_call_lem e h =
    (ap (λ x. x.0) frame, ap (λ x. x.1) frame, ap (λ x. x.2) frame, ap (λ x. x.3) frame)
  where
    frame :
        call_state (force_all_standby e (end_call e (record h { in_call = false })))
        ≡ (h.mode, false, none, none, h.out_device)
    frame = force_all_standby-call_state e (end_call e (record h { in_call = false }))

-- select_mode, for a mode that has just been stored.
abbrev pub Selected : Env → Hal → Type 0
Selected e h =
    IsConsistent (select_mode e h)
    × ((select_mode e h).mode ≡ h.mode)
    × (is_in_call h.mode ≡ true → h.in_call ≡ false → (select_mode e h).out_device.speaker ≡ false)

select_mode_lem :
    (e : Env) (h : Hal)
    → (h.in_call ≡ false → (h.pcm_modem_dl ≡ none) × (h.pcm_modem_ul ≡ none))
    → is_some h.pcm_modem_dl ≡ is_some h.pcm_modem_ul
    → Selected e h
unfolding select_mode
select_mode_lem e h idle together = elim (Bool-cases (is_in_call h.mode)) [
  | inl m ↦ elim (Bool-cases h.in_call) [
    | inl c ↦ ground arith
    | inr c ↦ ground (arith, enter_call_lem e h (idle c).0 (idle c).1)
  ]
  | inr m ↦ elim (Bool-cases h.in_call) [
    | inl c ↦ ground (arith, leave_call_lem e h)
    | inr c ↦ ground arith
  ]
]

is_in_call_id : (m : Mode) → is_in_call m ≡ (mode_id m == 4)
is_in_call_id invalid = refl
is_in_call_id current = refl
is_in_call_id normal = refl
is_in_call_id ringtone = refl
is_in_call_id in_call = refl
is_in_call_id in_communication = refl

-- adev_set_mode ends in the mode asked for. It keeps the state of a call consistent: in_call holds
-- exactly in AUDIO_MODE_IN_CALL, the modem holds its two PCMs together, and none outside of a call.
-- On the way into a call the speaker leaves the selected outputs.
pub adev_set_mode-IsConsistent :
    (e : Env) (m : Mode) (h : Hal)
    → IsConsistent h
    → IsConsistent (adev_set_mode e m h)
      × (mode_id (adev_set_mode e m h).mode ≡ mode_id m)
      × (is_in_call m ≡ true
          → is_in_call h.mode ≡ false
          → (adev_set_mode e m h).out_device.speaker ≡ false)
unfolding adev_set_mode
adev_set_mode-IsConsistent e m h c = elim (Bool-cases (mode_id h.mode == mode_id m)) [
  | inl s ↦ ground (arith, is_in_call_id m, is_in_call_id h.mode)
  | inr s ↦ ground (arith, select_mode_lem e (record h { mode = m }) c.1 c.2)
]
