-- ===== src/Light/Tests.antt =====
-- Runs of liblight/lights.c, and the theorems about it at concrete inputs.
use android_device_samsung_t.Base.{ℕ, ◌+◌, ◌*◌, ◌/◌, ◌≤◌, ◌≡◌, refl, [], ◌∷◌, none, some, arith}
use android_device_samsung_t.Base.Int.{pos}
use android_device_samsung_t.Light.{
  LightState, flash_none, flash_timed, Kernel, rgb_to_brightness, init_g_lock, led_request,
  led_color, cleared,
}
use android_device_samsung_t.Light.Brightness.{rgb_to_brightness_bounds}
use android_device_samsung_t.Light.Priority.{
  by_notification, by_battery, run, wishes, last_led, set_light, set_light-run-top,
}

abbrev steady : ℕ → LightState
steady c = record { color = c; flash_mode = flash_none; flash_on_ms = 0; flash_off_ms = 0 }

abbrev blink : ℕ → LightState
blink c = record { color = c; flash_mode = flash_timed; flash_on_ms = 500; flash_off_ms = 2000 }

abbrev working : Kernel
working = record {
  lcd_open_errno = none;
  lcd_write_errno = none;
  led_open_errno = none;
  set_led_result = pos 0;
}

white_is_full : rgb_to_brightness (steady 0xffffffff) ≡ 255
unfolding rgb_to_brightness
white_is_full = refl

rgb_to_brightness_bounds_example :
    (rgb_to_brightness (steady 0xff102030) ≡ (77 * 16 + 150 * 32 + 29 * 48) / 256)
    × (16 ≤ rgb_to_brightness (steady 0xff102030))
    × (rgb_to_brightness (steady 0xff102030) ≤ 48)
rgb_to_brightness_bounds_example =
    rgb_to_brightness_bounds (steady 0xff102030) 255 16 32 48 16 48 (omega arith) (omega arith)
      (omega arith, omega arith, omega arith) (omega arith, omega arith, omega arith)

-- The battery asks for green, a notification blinks and then goes: green is back.
set_light-run-top_example :
    last_led
      (set_light working by_notification (steady 0) (
        run working
          ((by_battery, steady 0x00ff00) ∷ (by_notification, blink 0xff) ∷ [])
          init_g_lock)).2
    ≡ some (record cleared { color = 0x00ff00; state = 1 })
unfolding led_request led_color wishes
set_light-run-top_example =
    set_light-run-top working ((by_battery, steady 0x00ff00) ∷ (by_notification, blink 0xff) ∷ [])
      by_notification (steady 0) refl (refl, (refl, tt)) refl
