-- ===== src/Audio/Modem/Open.antt =====
-- What start_call and end_call of audio/audio_hw.c leave open.
use android_device_samsung_t.Base.{
  ℕ, ◌+◌, ◌≡◌, refl, Bool, true, false, [], ◌∷◌, none, some, arith, Bool-cases, is_some, inl, inr,
  ◌&&◌,
}
use android_device_samsung_t.Audio.Mixer.{ok, enomem}
use android_device_samsung_t.Audio.Device.{Hal, Env, emit, pcm_closed}
use android_device_samsung_t.Audio.Balance.{IsBalanced, IsBalanced-step, held}
use android_device_samsung_t.Audio.Modem.{
  open_dl, open_ul, err_open_dl, err_open_ul, start_both, start_ul, amr_rate, start_call, end_call,
}

abbrev pub both_ready : Env → Hal → Bool
both_ready e h = e.pcm_is_ready h.next_handle && e.pcm_is_ready (h.next_handle + 1)

open_dl-Balanced :
    (n : ℕ) (h : Hal) → is_some h.pcm_modem_dl ≡ false → IsBalanced n h → IsBalanced n (open_dl h)
unfolding held
open_dl-Balanced n h dl b = IsBalanced-step n h (open_dl h) _ refl (ground arith) b

open_ul-Balanced :
    (n : ℕ) (h : Hal) → is_some h.pcm_modem_ul ≡ false → IsBalanced n h → IsBalanced n (open_ul h)
unfolding held
open_ul-Balanced n h ul b = IsBalanced-step n h (open_ul h) _ refl (ground arith) b

err_open_dl-Balanced : (n : ℕ) (h : Hal) → IsBalanced n h → IsBalanced n (err_open_dl h).1
unfolding held
err_open_dl-Balanced n h b = IsBalanced-step n h (err_open_dl h).1 _ refl (ground arith) b

err_open_ul-Balanced : (n : ℕ) (h : Hal) → IsBalanced n h → IsBalanced n (err_open_ul h).1
unfolding held
err_open_ul-Balanced n h b =
    err_open_dl-Balanced n k (IsBalanced-step n h k _ refl (ground arith) b)
  where
    k : Hal
    k = record (emit (pcm_closed h.pcm_modem_ul ∷ []) h) { pcm_modem_ul = none }

start_both-Balanced : (n : ℕ) (h : Hal) → IsBalanced n h → IsBalanced n (start_both h).1
unfolding held
start_both-Balanced n h b = IsBalanced-step n h (start_both h).1 _ refl refl b

start_ul-Balanced : (e : Env) (n : ℕ) (h : Hal) → IsBalanced n h → IsBalanced n (start_ul e h).1
unfolding start_ul
start_ul-Balanced e n h b = elim (Bool-cases (is_some h.pcm_modem_ul)) [
  | inl ul ↦ rw ul (start_both-Balanced n h b)
  | inr ul ↦ elim (Bool-cases (e.pcm_is_ready h.next_handle)) [
    | inl r ↦ rw (ul, r) (start_both-Balanced n (open_ul h) (open_ul-Balanced n h ul b))
    | inr r ↦ rw (ul, r) (err_open_ul-Balanced n (open_ul h) (open_ul-Balanced n h ul b))
  ]
]

start_call-Balanced : (e : Env) (n : ℕ) (h : Hal) → IsBalanced n h → IsBalanced n (start_call e h).1
unfolding start_call held
start_call-Balanced e n h b = elim (Bool-cases (is_some h.pcm_modem_dl)) [
  | inl dl ↦ rw dl (start_ul-Balanced e n g b)
  | inr dl ↦ elim (Bool-cases (e.pcm_is_ready h.next_handle)) [
    | inl r ↦ rw (dl, r) (start_ul-Balanced e n (open_dl g) (open_dl-Balanced n g dl b))
    | inr r ↦ rw (dl, r) (err_open_dl-Balanced n (open_dl g) (open_dl-Balanced n g dl b))
  ]
]
  where
    g : Hal
    g = record h { vx_rate = amr_rate h.wb_amr }

-- When the modem holds no PCM, start_call ends in one of two ways. If both PCMs come up ready, it
-- returns 0 and holds both, on fresh handles. Otherwise it returns -ENOMEM and holds neither. Either
-- way the PCMs opened and closed balance again if they did before.
pub start_call-both :
    (e : Env) (h : Hal)
    → h.pcm_modem_dl ≡ none
    → h.pcm_modem_ul ≡ none
    → (both_ready e h ≡ true
        → ((start_call e h).0 ≡ ok)
          × ((start_call e h).1.pcm_modem_dl ≡ some h.next_handle)
          × ((start_call e h).1.pcm_modem_ul ≡ some (h.next_handle + 1)))
      × (both_ready e h ≡ false
          → ((start_call e h).0 ≡ enomem)
            × ((start_call e h).1.pcm_modem_dl ≡ none)
            × ((start_call e h).1.pcm_modem_ul ≡ none))
      × ((n : ℕ) → IsBalanced n h → IsBalanced n (start_call e h).1)
unfolding start_call start_ul
start_call-both e h dl ul = (λ r. ground arith, λ r. ground arith, λ n. start_call-Balanced e n h)

pub end_call-Balanced : (e : Env) (n : ℕ) (h : Hal) → IsBalanced n h → IsBalanced n (end_call e h)
unfolding end_call held
end_call-Balanced e n h b = IsBalanced-step n h (end_call e h) _ refl (ground arith) b
