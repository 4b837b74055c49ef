-- ===== src/Audio/Balance.antt =====
-- audio/audio_hw.c: PCMs opened and closed, counted over the calls of the HAL.
use android_device_samsung_t.Base.{ℕ, ◌+◌, ◌≡◌, List, [], ◌∷◌, ◌++◌, Option, none, some, arith}
use android_device_samsung_t.Audio.Device.{Hal, Call, StreamOut, pcm_opened, pcm_closed}

-- The handles that pcm_open returned.
abbrev pub opens : List Call → ℕ
opens [] = 0
opens (pcm_opened _ _ _ _ _ ∷ cs) = 1 + opens cs
opens (_ ∷ cs) = opens cs

-- The handles that pcm_close was given.
abbrev pub closes : List Call → ℕ
closes [] = 0
closes (pcm_closed (some _) ∷ cs) = 1 + closes cs
closes (_ ∷ cs) = closes cs

-- 1 for a handle, 0 for NULL.
abbrev pub holds : Option ℕ → ℕ
holds none = 0
holds (some _) = 1

abbrev pub held_output : Option StreamOut → ℕ
held_output none = 0
held_output (some o) = holds o.normal + (holds o.spdif + holds o.hdmi)

-- The PCMs that the modem and the outputs hold.
unfoldable pub held : Hal → ℕ
held h =
    holds h.pcm_modem_dl
    + (holds h.pcm_modem_ul
        + (held_output h.deep_buf + (held_output h.low_latency + held_output h.hdmi)))

-- Each PCM opened is closed, held by the modem or an output, or one of n others.
abbrev pub IsBalanced : ℕ → Hal → Type 0
IsBalanced n h = opens h.log ≡ closes h.log + (held h + n)

pub opens-append : (xs ys : List Call) → opens (xs ++ ys) ≡ opens xs + opens ys
opens-append [] ys = omega arith
opens-append (pcm_opened _ _ _ _ _ ∷ xs) ys = rw (opens-append xs ys) (omega arith)
opens-append (_ ∷ xs) ys = opens-append xs ys

pub closes-append : (xs ys : List Call) → closes (xs ++ ys) ≡ closes xs + closes ys
closes-append [] ys = omega arith
closes-append (pcm_closed (some _) ∷ xs) ys = rw (closes-append xs ys) (omega arith)
closes-append (_ ∷ xs) ys = closes-append xs ys

-- A step that makes the calls cs.
pub IsBalanced-step :
    (n : ℕ) (h k : Hal) (cs : List Call)
    → k.log ≡ h.log ++ cs
    → opens cs + held h ≡ closes cs + held k
    → IsBalanced n h
    → IsBalanced n k
unfolding held
IsBalanced-step n h k cs l c b = rw (l, opens-append h.log cs, closes-append h.log cs) (omega arith)
