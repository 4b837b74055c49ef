-- ===== src/Light.antt =====
-- liblight/lights.c: the virtual LEDs, their priority, the backlight, the choice of a handler.
-- BoardConfig.mk sets TARGET_USE_CHARGING_LED, so there are three virtual LEDs.
-- The mutex is not modelled: each handler runs as one step. `open`, `ioctl` and `write` of the
-- kernel are the parameter `Kernel`, and what is sent to it is a list of calls.
pub mod Brightness
pub mod Priority
mod Tests
use Prim.Native.String.{String}
use text.Mathlib.Text.{◌==◌ as str_eq}
use android_device_samsung_t.Base.{
  ℕ, zero, suc, ◌+◌, ◌*◌, ◌/◌, ◌%◌, ◌^◌, ◌-◌, Bool, true, false, not, List, [], ◌∷◌, Option, none,
  some, ◌==◌, ltb, leb, ◌&&◌, if◌then◌else◌,
}
use android_device_samsung_t.Base.Int.{ℤ, pos, negsuc}

-- LED_LIGHT_OFF, LED_LIGHT_ON and LED_LIGHT_SLOPE of the driver's header, as numbers.
abbrev pub led_light_off : ℕ
led_light_off = 0

abbrev pub led_light_on : ℕ
led_light_on = 1

abbrev pub led_light_slope : ℕ
led_light_slope = 3

-- struct an30259a_pr_control.
pub record An30259aPrControl : Type 0 where
  pub color : ℕ
  pub state : ℕ
  pub start_delay : ℕ
  pub time_slope_up_1 : ℕ
  pub time_slope_up_2 : ℕ
  pub time_on : ℕ
  pub time_slope_down_1 : ℕ
  pub time_slope_down_2 : ℕ
  pub time_off : ℕ
  pub mid_brightness : ℕ

-- What `memset` leaves.
abbrev pub cleared : An30259aPrControl
cleared = record {
  color = 0;
  state = 0;
  start_delay = 0;
  time_slope_up_1 = 0;
  time_slope_up_2 = 0;
  time_on = 0;
  time_slope_down_1 = 0;
  time_slope_down_2 = 0;
  time_off = 0;
  mid_brightness = 0;
}

-- LIGHT_FLASH_NONE, LIGHT_FLASH_TIMED, LIGHT_FLASH_HARDWARE, and any other number.
pub data FlashMode : Type 0 where
  flash_none flash_timed flash_hardware : FlashMode
  flash_other : ℕ → FlashMode

abbrev pub is_flash_none : FlashMode → Bool
is_flash_none flash_none = true
is_flash_none _ = false

-- struct light_state_t: a 32-bit colour; the durations are not negative.
pub record LightState : Type 0 where
  pub color : ℕ
  pub flash_mode : FlashMode
  pub flash_on_ms : ℕ
  pub flash_off_ms : ℕ

abbrev pub slope_up_1 : ℕ
slope_up_1 = 450

abbrev pub slope_up_2 : ℕ
slope_up_2 = 500 - slope_up_1

abbrev pub slope_down_1 : ℕ
slope_down_1 = slope_up_2

abbrev pub slope_down_2 : ℕ
slope_down_2 = slope_up_1

abbrev pub mid_brightness_level : ℕ
mid_brightness_level = 31

-- x & 0x00ffffff and the bytes of a colour.
abbrev pub rgb : ℕ → ℕ
rgb color = color % 2 ^ 24

unfoldable pub rgb_to_brightness : LightState → ℕ
rgb_to_brightness s =
    let color : ℕ = rgb s.color in
    (77 * (color / 2 ^ 16 % 2 ^ 8) + 150 * (color / 2 ^ 8 % 2 ^ 8) + 29 * (color % 2 ^ 8)) / 2 ^ 8

-- What goes to the kernel.
pub data Call : Type 0 where
  write_brightness : ℕ → Call
  set_imax : ℕ → Call
  set_led : An30259aPrControl → Call

-- The kernel's answers: whether `open` fails (with which errno), `write` and the second ioctl.
pub record Kernel : Type 0 where
  pub lcd_open_errno : Option ℕ
  pub lcd_write_errno : Option ℕ
  pub led_open_errno : Option ℕ
  pub set_led_result : ℤ

-- -errno.
abbrev pub minus : ℕ → ℤ
minus zero = pos 0
minus (suc n) = negsuc n

abbrev pub einval : ℕ
einval = 22

-- g_led_states, indexed by LED_TYPE_ATTENTION, LED_TYPE_NOTIFICATION and LED_TYPE_CHARGING.
pub record Leds : Type 0 where
  pub attention : An30259aPrControl
  pub notification : An30259aPrControl
  pub charging : An30259aPrControl

abbrev pub led_type_attention : ℕ
led_type_attention = 0

abbrev pub led_type_notification : ℕ
led_type_notification = 1

abbrev pub led_type_charging : ℕ
led_type_charging = 2

abbrev pub led_type_last : ℕ
led_type_last = 3

unfoldable pub init_g_lock : Leds
init_g_lock = record { attention = cleared; notification = cleared; charging = cleared }

abbrev pub led_states : Leds → List An30259aPrControl
led_states g = g.attention ∷ g.notification ∷ g.charging ∷ []

-- led_state = &g_led_states[type], read and written; a type past the table is refused before.
abbrev pub put_led_state : ℕ → An30259aPrControl → Leds → Leds
put_led_state zero c g = record g { attention = c }
put_led_state (suc zero) c g = record g { notification = c }
put_led_state (suc (suc n)) c g = record g { charging = c }

module _ (k : Kernel) where
  pub write_int : ℕ → ℤ × List Call
  write_int value = elim k.lcd_open_errno [
    | some e ↦ (minus e, [])
    | none ↦ elim k.lcd_write_errno [
      | some e ↦ (minus e, write_brightness value ∷ [])
      | none ↦ (pos 0, write_brightness value ∷ [])
    ]
  ]

  pub set_light_backlight : LightState → ℤ × List Call
  set_light_backlight s = write_int (rgb_to_brightness s)

  pub write_leds : An30259aPrControl → ℤ × List Call
  write_leds led = elim k.led_open_errno [
    | none ↦ (k.set_led_result, set_imax 0 ∷ set_led led ∷ [])
    | some e ↦ (minus e, [])
  ]

  -- The loop: the first block that is not off is written, and after the loop the last one.
  pub write_first_lit : List An30259aPrControl → An30259aPrControl → ℤ × List Call
  write_first_lit [] last = write_leds last
  write_first_lit (c ∷ cs) last =
      let rest = write_first_lit cs last in
      if not (c.state == led_light_off) then write_leds c else rest

  unfoldable pub write_leds_priority : Leds → ℤ × List Call
  unfolding write_first_lit
  write_leds_priority g = write_first_lit (led_states g) g.charging

-- led_state->color, with the tint of white changed.
unfoldable pub led_color : LightState → ℕ
led_color s = if rgb s.color == 0x00ffffff then 0x80ff80 else rgb s.color

-- One of the scaled slope times: an int product, stored in a __u16.
abbrev pub slope : ℕ → LightState → ℕ
slope part s = part * s.flash_on_ms / 1000 % 2 ^ 16

-- The control block of a request; `none` where the switch returns -EINVAL.
unfoldable pub led_request : FlashMode → LightState → Option An30259aPrControl
led_request flash_none s = some (record cleared { color = led_color s; state = led_light_on })
led_request (flash_other n) s = none
led_request _ s = some (record cleared {
  color = led_color s;
  state = led_light_slope;
  time_slope_up_1 = slope slope_up_1 s;
  time_slope_up_2 = slope slope_up_2 s;
  time_slope_down_1 = slope slope_down_1 s;
  time_slope_down_2 = slope slope_down_2 s;
  mid_brightness = mid_brightness_level;
  time_off = s.flash_off_ms % 2 ^ 16;
})

module _ (k : Kernel) where
  -- The rest of the handler, with the request's control block already found.
  pub store_led : ℕ → LightState → Option An30259aPrControl → Leds → ℤ × Leds × List Call
  store_led type s (some c) g =
      let g' = put_led_state type c g in
      let (status, calls) = write_leds_priority k g' in (status, g', calls)
  store_led type s none g =
      (minus einval, put_led_state type (record cleared { color = led_color s }) g, [])

  pub set_light_leds : LightState → ℕ → Leds → ℤ × Leds × List Call
  unfolding store_led led_request
  set_light_leds s type g =
      if leb led_type_last type
      then (minus einval, g, [])
      else (if rgb s.color == 0
          then store_led type s (some cleared) g
          else store_led type s (led_request s.flash_mode s) g)

  pub set_light_leds_notifications : LightState → Leds → ℤ × Leds × List Call
  set_light_leds_notifications s g = set_light_leds s led_type_notification g

  pub set_light_leds_battery : LightState → Leds → ℤ × Leds × List Call
  set_light_leds_battery s g = set_light_leds s led_type_charging g

  pub set_light_leds_attention : LightState → Leds → ℤ × Leds × List Call
  set_light_leds_attention s g =
      set_light_leds (if is_flash_none s.flash_mode then record s { color = 0 } else s)
        led_type_attention g

-- The handlers that `open_lights` installs as `set_light`.
pub data SetLight : Type 0 where
  backlight notifications attention battery : SetLight

-- Parameters: the names LIGHT_ID_* of the light HAL, and the name asked for. `none` is -EINVAL.
pub record LightIds : Type 0 where
  pub id_backlight : String
  pub id_notifications : String
  pub id_attention : String
  pub id_battery : String

pub open_lights : LightIds → String → Option SetLight
open_lights ids name =
    if str_eq ids.id_backlight name
    then some backlight
    else (if str_eq ids.id_notifications name
        then some notifications
        else (if str_eq ids.id_attention name
            then some attention
            else (if str_eq ids.id_battery name then some battery else none)))
