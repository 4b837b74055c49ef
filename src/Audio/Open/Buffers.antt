-- ===== src/Audio/Open/Buffers.antt =====
-- The sizes of the buffers that audio/audio_hw.c reports.
use android_device_samsung_t.Base.{
  ℕ, ◌+◌, ◌*◌, ◌/◌, ◌%◌, ◌^◌, ◌≡◌, ◌≤◌, ◌<◌, refl, ◌⊎◌, true, false, inl, inr, arith,
}
use android_device_samsung_t.Audio.Open.{
  check_input_parameters, get_input_buffer_size, round_up, is_ok,
}

accepted :
    (r f c : ℕ) → is_ok (check_input_parameters r f c) ≡ true → (r ≤ 48000) × ((c ≡ 1) ⊎ (c ≡ 2))
unfolding check_input_parameters
accepted r f c h = ground arith

-- The frames of a buffer, without the wrapping.
frames_bounds :
    (r : ℕ)
    → r ≤ 48000
    → (1056 * r % 2 ^ 32 ≡ 1056 * r)
      × (round_up (1056 * r / 48000) % 2 ^ 32 ≡ 16 * ((1056 * r / 48000 + 15) / 16))
      × (1056 * r / 48000 ≤ 16 * ((1056 * r / 48000 + 15) / 16))
      × (16 * ((1056 * r / 48000 + 15) / 16) < 1056 * r / 48000 + 16)
unfolding round_up
frames_bounds r h = (omega arith, omega arith, omega arith, omega arith)

size_of :
    (r c : ℕ)
    → r ≤ 48000
    → (c ≡ 1) ⊎ (c ≡ 2)
    → round_up (1056 * r % 2 ^ 32 / 48000) % 2 ^ 32 * c * 2 % 2 ^ 32
      ≡ 16 * ((1056 * r / 48000 + 15) / 16) * (c * 2)
size_of r c h (inl k) = rw (k, (frames_bounds r h).0, (frames_bounds r h).1) (omega arith)
size_of r c h (inr k) = rw (k, (frames_bounds r h).0, (frames_bounds r h).1) (omega arith)

-- A capture buffer is 0 bytes for parameters that the HAL does not take. Otherwise it holds a whole
-- number of blocks of 16 frames of channel_count 16-bit samples, which last at least as long as the whole
-- frames of a capture period of 1056 frames at 48 kHz, and less than 16 frames longer; the 32-bit
-- products do not wrap.
pub get_input_buffer_size_bounds :
    (sample_rate format channel_count : ℕ)
    → (is_ok (check_input_parameters sample_rate format channel_count) ≡ false
        → get_input_buffer_size sample_rate format channel_count ≡ 0)
      × (is_ok (check_input_parameters sample_rate format channel_count) ≡ true
          → (blocks : ℕ) × (get_input_buffer_size sample_rate format channel_count
              ≡ 16 * blocks * (channel_count * 2))
            × (1056 * sample_rate / 48000 ≤ 16 * blocks)
            × (16 * blocks < 1056 * sample_rate / 48000 + 16))
unfolding get_input_buffer_size
get_input_buffer_size_bounds r f c = (
  λ h. rw h refl,
  λ h. (
    (1056 * r / 48000 + 15) / 16,
    rw h (size_of r c (accepted r f c h).0 (accepted r f c h).1),
    (frames_bounds r (accepted r f c h).0).2,
    (frames_bounds r (accepted r f c h).0).3,
  ),
)
