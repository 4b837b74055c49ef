-- ===== src/Light/Priority.antt =====
-- The virtual LEDs of liblight/lights.c against a table of what each user last asked for.
use android_device_samsung_t.Base.{
  ◌≡◌, refl, Bool, true, false, List, [], ◌∷◌, Option, none, some, arith, ◌==◌, if◌then◌else◌,
  ◌<|>◌,
}
use android_device_samsung_t.Base.Int.{ℤ}
use android_device_samsung_t.Light.{
  An30259aPrControl, LightState, FlashMode, flash_none, flash_timed, flash_hardware, flash_other,
  Leds, Kernel, Call, set_led, cleared, rgb, led_request, led_light_off, init_g_lock,
  set_light_leds, set_light_leds_notifications, set_light_leds_attention, set_light_leds_battery,
  store_led, write_leds_priority, write_first_lit, write_leds, is_flash_none,
}

-- Who asks for a LED.
pub data User : Type 0 where
  by_attention by_notification by_battery : User

-- set_light of that user.
abbrev pub set_light : Kernel → User → LightState → Leds → ℤ × Leds × List Call
set_light k by_attention s g = set_light_leds_attention k s g
set_light k by_notification s g = set_light_leds_notifications k s g
set_light k by_battery s g = set_light_leds_battery k s g

-- What each user wants lit, if anything.
pub record Wanted : Type 0 where
  pub attention : Option LightState
  pub notification : Option LightState
  pub battery : Option LightState

abbrev pub nothing_wanted : Wanted
nothing_wanted = record { attention = none; notification = none; battery = none }

abbrev pub if_coloured : LightState → Option LightState
if_coloured s = if rgb s.color == 0 then none else some s

-- A steady request for attention turns the attention light off.
abbrev pub wish : User → LightState → Wanted → Wanted
wish by_attention s w = record w {
  attention = if is_flash_none s.flash_mode then none else if_coloured s;
}
wish by_notification s w = record w { notification = if_coloured s }
wish by_battery s w = record w { battery = if_coloured s }

-- Attention comes before notifications, and those before charging.
abbrev pub top : Wanted → Option LightState
top w = w.attention <|> (w.notification <|> w.battery)

-- The block that the driver is to get for a wish.
abbrev pub shown : Option LightState → Option An30259aPrControl
shown none = some cleared
shown (some s) = led_request s.flash_mode s

abbrev pub last_led : List Call → Option An30259aPrControl
last_led [] = none
last_led (set_led c ∷ cs) = last_led cs <|> some c
last_led (_ ∷ cs) = last_led cs

-- A flash mode that lights.h names.
abbrev pub is_named : FlashMode → Bool
is_named (flash_other n) = false
is_named _ = true

-- The block of one virtual LED stands for a wish.
abbrev pub Holds : An30259aPrControl → Option LightState → Type 0
Holds c none = c ≡ cleared
Holds c (some s) = (led_request s.flash_mode s ≡ some c) × ((c.state == led_light_off) ≡ false)

pub record Shows (g : Leds) (w : Wanted) : Type 0 where
  pub attention : Holds g.attention w.attention
  pub notification : Holds g.notification w.notification
  pub battery : Holds g.charging w.battery

pub init_g_lock-Shows : Shows init_g_lock nothing_wanted
unfolding init_g_lock
init_g_lock-Shows = record { attention = refl; notification = refl; battery = refl }

-- If the LED device opens, the loop sends the block of the first wish, or a cleared one.
priority_top :
    (k : Kernel) (a n b : An30259aPrControl) (wa wn wb : Option LightState)
    → k.led_open_errno ≡ none
    → Holds a wa
    → Holds n wn
    → Holds b wb
    → last_led (write_first_lit k (a ∷ n ∷ b ∷ []) b).1 ≡ shown (wa <|> (wn <|> wb))
unfolding write_first_lit write_leds
priority_top k a n b (some sa) wn wb o ha hn hb = ground arith
priority_top k a n b none (some sn) wb o ha hn hb = ground arith
priority_top k a n b none none (some sb) o ha hn hb = ground arith
priority_top k a n b none none none o ha hn hb = ground arith

-- The block that a request with a named flash mode stores stands for its wish.
led_request-Holds :
    (s : LightState)
    → is_named s.flash_mode ≡ true
    → (c : An30259aPrControl) × (led_request s.flash_mode s ≡ some c)
      × ((c.state == led_light_off) ≡ false)
unfolding led_request
led_request-Holds s h = go s.flash_mode h
  where
    go :
        (m : FlashMode)
        → is_named m ≡ true
        → (c : An30259aPrControl) × (led_request m s ≡ some c)
          × ((c.state == led_light_off) ≡ false)
    go flash_none e = (_, refl, refl)
    go flash_timed e = (_, refl, refl)
    go flash_hardware e = (_, refl, refl)
    go (flash_other n) e = cc

set_light-Shows :
    (k : Kernel) (u : User) (s : LightState) (g : Leds) (w : Wanted)
    → is_named s.flash_mode ≡ true
    → Shows g w
    → Shows (set_light k u s g).1 (wish u s w)
unfolding set_light_leds_attention set_light_leds_notifications set_light_leds_battery
    set_light_leds store_led
set_light-Shows k u s g w h v = let (c, e, l) = led_request-Holds s h in go u c e l
  where
    go :
        (u : User) (c : An30259aPrControl)
        → led_request s.flash_mode s ≡ some c
        → (c.state == led_light_off) ≡ false
        → Shows (set_light k u s g).1 (wish u s w)
    go by_attention c e l = ground arith
    go by_notification c e l = ground arith
    go by_battery c e l = ground arith

-- One request: the driver gets the block of the topmost wish.
set_light-top :
    (k : Kernel) (u : User) (s : LightState) (g : Leds) (w : Wanted)
    → k.led_open_errno ≡ none
    → is_named s.flash_mode ≡ true
    → Shows g w
    → last_led (set_light k u s g).2 ≡ shown (top (wish u s w))
unfolding set_light_leds_attention set_light_leds_notifications set_light_leds_battery
    set_light_leds store_led write_leds_priority
set_light-top k u s g w o h v = let (c, e, l) = led_request-Holds s h in go u c e l
  where
    go :
        (u : User) (c : An30259aPrControl)
        → led_request s.flash_mode s ≡ some c
        → (c.state == led_light_off) ≡ false
        → last_led (set_light k u s g).2 ≡ shown (top (wish u s w))
    go by_attention c e l = ground (
      arith,
      priority_top k c g.notification g.charging (some s) w.notification w.battery,
      priority_top k cleared g.notification g.charging none w.notification w.battery,
    )
    go by_notification c e l = ground (
      arith,
      priority_top k g.attention c g.charging w.attention (some s) w.battery,
      priority_top k g.attention cleared g.charging w.attention none w.battery,
    )
    go by_battery c e l = ground (
      arith,
      priority_top k g.attention g.notification c w.attention w.notification (some s),
      priority_top k g.attention g.notification cleared w.attention w.notification none,
    )

-- The requests of a history, in their order.
unfoldable pub run : Kernel → List (User × LightState) → Leds → Leds
run k [] g = g
run k ((u, s) ∷ rs) g = run k rs (set_light k u s g).1

unfoldable pub wishes : List (User × LightState) → Wanted → Wanted
wishes [] w = w
wishes ((u, s) ∷ rs) w = wishes rs (wish u s w)

abbrev pub AllNamed : List (User × LightState) → Type 0
AllNamed [] = Unit
AllNamed ((u, s) ∷ rs) = (is_named s.flash_mode ≡ true) × AllNamed rs

run-Shows :
    (k : Kernel) (rs : List (User × LightState)) (g : Leds) (w : Wanted)
    → AllNamed rs
    → Shows g w
    → Shows (run k rs g) (wishes rs w)
unfolding run wishes
run-Shows k [] g w h v = v
run-Shows k ((u, s) ∷ rs) g w h v =
    run-Shows k rs (set_light k u s g).1 (wish u s w) h.1 (set_light-Shows k u s g w h.0 v)

-- After any requests from the start, all with flash modes that lights.h names, one more such request
-- makes the driver show the topmost wish: attention before notifications before charging, and
-- nothing if no user wants a light; provided the LED device opens for that request.
pub set_light-run-top :
    (k : Kernel) (rs : List (User × LightState)) (u : User) (s : LightState)
    → k.led_open_errno ≡ none
    → AllNamed rs
    → is_named s.flash_mode ≡ true
    → last_led (set_light k u s (run k rs init_g_lock)).2
      ≡ shown (top (wish u s (wishes rs nothing_wanted)))
set_light-run-top k rs u s o hs h =
    set_light-top k u s _ _ o h (run-Shows k rs init_g_lock nothing_wanted hs init_g_lock-Shows)
