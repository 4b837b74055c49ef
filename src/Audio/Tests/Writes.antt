-- ===== src/Audio/Tests/Writes.antt =====
-- The theorems about the writes of audio/, on a driver that plays 220 frames in 5 ms.
use android_device_samsung_t.Base.{
  ℕ, Option, zero, suc, ◌-◌, ◌*◌, ◌<◌, ◌≡◌, refl, ◌⊎◌, inr, true, false, not, ◌&&◌, [], ◌∷◌, none,
  some, is_some, arith,
}
use android_device_samsung_t.Audio.Device.{Hal, StreamOut, deep_buf, low_latency}
use android_device_samsung_t.Audio.Start.{deep_buffer_short_period_size}
use android_device_samsung_t.Audio.Write.{
  Player, wake, kernel_frames, rest_after, pause_after_start, deep_buffer_written,
  out_write_deep_buffer, out_write_low_latency,
}
use android_device_samsung_t.Audio.Write.Wait.{Plays, HasRoom, IsPaced, out_write_deep_buffer-waits}
use android_device_samsung_t.Audio.Write.Order.{
  recorder, wrote, sleeps, played, out_write_low_latency-order,
}
use android_device_samsung_t.Audio.Write.Restart.{Writes, writes, out_write_hdmi-restarts}
use android_device_samsung_t.Audio.Tests.{env, idle, playing}

-- The driver's state is the number of frames that it holds.
abbrev drain : Player ℕ
drain = record {
  htimestamp = λ p d. some (0, 0, 0);
  buffer_size = λ p d. d;
  pcm_write = λ p sound d. (0, d);
  pcm_mmap_write = λ p sound d. (0, d);
  echo_write = λ r sound stamp delay d. d;
  usleep = λ t d. d - 220;
}

drain-Plays : Plays env drain
unfolding kernel_frames
drain-Plays o d t n m h q p r = ground (arith, q, p, r)

drain_held : (o : StreamOut) (n : ℕ) → kernel_frames env drain o 8000 ≡ some n → n < 8001
unfolding kernel_frames
drain_held o n q = ground (arith, q)

abbrev deep : StreamOut
deep = record playing { write_threshold = deep_buffer_short_period_size * 4 }

abbrev dark : Hal
dark = record idle { deep_buf = some deep; screen_off = true }

out_write_deep_buffer-waits_example :
    let (ready, k) = wake env deep_buf deep dark in
    ((ready ≡ false)
      × (out_write_deep_buffer env drain 8002 deep (7 ∷ []) dark 8000
          ≡ some (
            deep_buffer_written env deep dark,
            pause_after_start env drain 48000 deep (7 ∷ []) 8000,
          )))
    ⊎ ((o : StreamOut) × (d : ℕ) × ((deep_buffer_written env deep dark).deep_buf ≡ some o)
        × IsPaced env drain o
        × (o.use_long_periods ≡ (k.screen_off && not (is_some k.active_input)))
        × HasRoom env drain o d
        × (out_write_deep_buffer env drain 8002 deep (7 ∷ []) dark 8000
            ≡ some (
              deep_buffer_written env deep dark,
              rest_after env drain o.sample_rate o 1 (drain.pcm_mmap_write o.normal (7 ∷ []) d),
            )))
out_write_deep_buffer-waits_example =
    out_write_deep_buffer-waits env drain drain-Plays 8001 deep (7 ∷ []) dark 8000 drain_held refl
      (inr (inr (refl, refl)))

-- Two periods are left, and the output runs.
abbrev multi : Hal
multi = record idle { hdmi = some (record playing { restart_periods_cnt = 2; hdmi = some 1 }) }

-- The second write counts the last of the two.
out_write_hdmi-restarts_example :
    Writes env drain (2 - 1) (2 ∷ []) (writes env drain ((1 ∷ []) ∷ []) (multi, 0))
out_write_hdmi-restarts_example =
    out_write_hdmi-restarts env drain ((1 ∷ []) ∷ []) (2 ∷ []) 2 multi 0 refl

-- Two open PCMs.
abbrev two_pcms : StreamOut
two_pcms = record playing { hdmi = some 4 }

abbrev two_outputs : Hal
two_outputs = record idle { low_latency = some two_pcms }

-- The first PCM fails, so that the second gets nothing.
abbrev first_fails : ℕ → ℕ
first_fails zero = 5
first_fails (suc n) = 0

abbrev no_stamp : Option ℕ → Option (ℕ × ℕ × ℕ)
no_stamp p = none

abbrev no_size : Option ℕ → ℕ
no_size p = 0

fails_at_once :
    (out_write_low_latency env
      (recorder first_fails no_stamp no_size)
      two_pcms
      (7 ∷ [])
      two_outputs
      []).1
    ≡ wrote 0 (7 ∷ []) ∷ sleeps env first_fails no_stamp no_size two_pcms (7 ∷ [])
unfolding out_write_low_latency wake
fails_at_once = refl

out_write_low_latency-order_example :
    let (ready, k) = wake env low_latency two_pcms two_outputs in
    let events =
      (out_write_low_latency env
        (recorder first_fails no_stamp no_size)
        two_pcms
        (7 ∷ [])
        two_outputs
        []).1 in
    ((ready ≡ false) × (events ≡ sleeps env first_fails no_stamp no_size two_pcms (7 ∷ [])))
    ⊎ ((ready ≡ true)
        × ((p : StreamOut) × (k.low_latency ≡ some p)
            × (events ≡ played env first_fails no_stamp no_size p (7 ∷ []))))
out_write_low_latency-order_example =
    out_write_low_latency-order env first_fails no_stamp no_size two_pcms (7 ∷ []) two_outputs []
      refl
