-- ===== src/Audio/Capture/Process/Exact.antt =====
-- process_frames of audio/audio_hw.c: what it returns, and when, for a stream without a resampler.
use mathlib.Core.Option.{map as map_option}
use android_device_samsung_t.Base.{
  ℕ, suc, ◌+◌, ◌-◌, ◌*◌, ◌≤◌, ◌<◌, ◌≡◌, ◌⊎◌, List, Option, some, is_zero, leb, if◌then◌else◌,
  length,
}
use android_device_samsung_t.Audio.Capture.{Capture, Driver, Frames, count, failed}
use android_device_samsung_t.Audio.Capture.Deliver.{FillsPeriod, ReadFails}
use android_device_samsung_t.Audio.Capture.Process.Frame.{Complies}
use android_device_samsung_t.Audio.Capture.Process.Reloading.{IsProcessing}

module _ {A D : Type 0} where
  module _ (v : Driver A D) {lag : D → ℕ} {most : ℕ} (ok : Complies v lag most) (period : ℕ)
      (fills : FillsPeriod v period) (hp : 0 < period) where
    -- The frames that are left, and how far the effects are from the next one.
    abbrev pub measure : ℕ → ℕ → Capture A D → ℕ
    measure frames at c = (frames - at) * suc most + lag c.world

    abbrev next : ℕ → ℕ → ℕ → ℕ
    next frames at o = if is_zero o then at else (if leb (at + o) frames then at + o else frames)

    -- A round with the frames that a reload has given.
    abbrev Goes : ℕ → ℕ → List A → Capture A D → ℕ × List A × Capture A D → Type 0
    Goes frames at out c (at', out', l) =
        (at' ≤ frames)
        × (length out' ≡ length out)
        × IsProcessing period l
        × (measure frames at' l < measure frames at c)

    -- What the loop returns: `frames`, or the errno of the pcm_read that leaves the driver as it is.
    abbrev pub IsAnswer : ℕ → Frames → D → Type 0
    IsAnswer frames f d = (f ≡ count frames) ⊎ ((e : ℕ) × (f ≡ failed e) × ReadFails v period e d)

    abbrev pub Answers : ℕ → List A → Option (Frames × List A × Capture A D) → Type 0
    Answers frames out r =
        (f : Frames) × (out' : List A) × (k : Capture A D) × (r ≡ some (f, out', k))
        × IsAnswer frames f k.world
        × (length out' ≡ length out)
        × IsProcessing period k
