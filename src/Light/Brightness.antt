-- ===== src/Light/Brightness.antt =====
-- The backlight level computed by rgb_to_brightness of liblight/lights.c.
use android_device_samsung_t.Base.{ℕ, ◌+◌, ◌*◌, ◌%◌, ◌^◌, ◌≤◌, ◌<◌, ◌≡◌, ◌/◌, arith}
use android_device_samsung_t.Light.{LightState, rgb, rgb_to_brightness}

-- The colour with these bytes of red, green and blue, below an alpha byte.
abbrev pub argb : ℕ → ℕ → ℕ → ℕ → ℕ
argb a r g b = a * 2 ^ 24 + r * 2 ^ 16 + g * 2 ^ 8 + b

bytes :
    (a r g b : ℕ)
    → r < 256
    → g < 256
    → b < 256
    → (rgb (argb a r g b) / 2 ^ 16 % 2 ^ 8 ≡ r)
      × (rgb (argb a r g b) / 2 ^ 8 % 2 ^ 8 ≡ g)
      × (rgb (argb a r g b) % 2 ^ 8 ≡ b)
bytes a r g b hr hg hb = omega arith

-- For bytes r, g and b, whatever the alpha byte, the level is (77 r + 150 g + 29 b) / 256, and lies
-- between the darkest and the brightest of any bounds `lo` and `hi` on the three bytes: it fits in
-- a byte, and a grey gets its own value.
pub rgb_to_brightness_bounds :
    (s : LightState) (a r g b lo hi : ℕ)
    → s.color ≡ argb a r g b
    → hi < 256
    → (lo ≤ r) × (lo ≤ g) × (lo ≤ b)
    → (r ≤ hi) × (g ≤ hi) × (b ≤ hi)
    → (rgb_to_brightness s ≡ (77 * r + 150 * g + 29 * b) / 256)
      × (lo ≤ rgb_to_brightness s)
      × (rgb_to_brightness s ≤ hi)
unfolding rgb_to_brightness
rgb_to_brightness_bounds s a r g b lo hi e h l u = rw e (omega (arith, bytes a r g b))
