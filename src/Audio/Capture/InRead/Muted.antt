-- ===== src/Audio/Capture/InRead/Muted.antt =====
-- in_read of audio/audio_hw.c: when it returns, and what it gives while the microphone is muted.
use mathlib.Core.Option.{map as map_option}
use android_device_samsung_t.Base.{ℕ, ◌≡◌, ◌<◌, Bool, ◌⊎◌, true, false, List, Option, some, All}
use android_device_samsung_t.Audio.Device.{Env}
use android_device_samsung_t.Audio.Capture.{Capture, Driver, Frames, count, failed}
use android_device_samsung_t.Audio.Capture.InRead.{Outcome}

-- Every sample is 0.
abbrev pub IsSilent : List (List ℕ) → Type 0
IsSilent = All (All (λ (n : ℕ). n ≡ 0))

module _ {D : Type 0} (v : Driver (List ℕ) D) where
  -- A pcm_read of any number of frames that fails with an errno, and leaves the driver in a state.
  abbrev pub Fails : ℕ → D → Type 0
  Fails e d' = (n : ℕ) × (d : D) × (0 < e) × ((v.pcm_read n d).0 ≡ e) × ((v.pcm_read n d).2 ≡ d')

  -- What a way of reading gives: frames, or the errno of a pcm_read.
  abbrev Gives : Option (Frames × List (List ℕ) × Capture (List ℕ) D) → Type 0
  Gives r =
      (f : Frames) × (xs : List (List ℕ)) × (k : Capture (List ℕ) D) × (r ≡ some (f, xs, k))
      × (((n : ℕ) × (f ≡ count n)) ⊎ ((e : ℕ) × (f ≡ failed e) × Fails e k.world))

module _ {D : Type 0} (e : Env) (v : Driver (List ℕ) D) where
  -- What in_read gives: the output could not be started, a pcm_read has failed, or the frames.
  abbrev pub Returns :
      List (List ℕ)
      → Option (Frames × List (List ℕ) × Capture (List ℕ) D)
      → Bool
      → Bool
      → Outcome D
      → Type 0
  Returns buffer r muted ready o =
      ((ready ≡ false) × (o.failed_read ≡ true) × (o.buffer ≡ buffer))
      ⊎ (((ready ≡ true) × (o.failed_read ≡ true) × ((n : ℕ) × Fails v n o.capture.world))
          ⊎ ((ready ≡ true)
              × (o.failed_read ≡ false)
              × (((muted ≡ true) × IsSilent o.buffer)
                  ⊎ ((muted ≡ false)
                      × ((n : ℕ) × (k : Capture (List ℕ) D) × (r ≡ some (count n, o.buffer, k)))))))
