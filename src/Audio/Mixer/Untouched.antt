-- ===== src/Audio/Mixer/Untouched.antt =====
-- Lists of calls that leave a mixer control alone.
use android_device_samsung_t.Base.{
  ℕ, zero, suc, ◌+◌, ◌≡◌, refl, Bool, true, false, not, ◌&&◌, List, [], ◌∷◌, ◌++◌, Option, none,
  some, arith, ◌==◌, if◌then◌else◌, Bool-cases, inl, inr, All, All-append,
}
use android_device_samsung_t.Base.Int.{ℤ, pos}
use android_device_samsung_t.Audio.Mixer.{
  Ctl, ctl_id, EnumName, MixerCall, set_value, set_enum, set_values, write_setting,
  set_route_by_array, Mixer, RouteSetting,
}
use android_device_samsung_t.Audio.Mixer.LastValue.{last_value}
use android_device_samsung_t.Audio.Mixer.Route.{Avoids}

abbrev pub touches : Ctl → MixerCall → Bool
touches c (set_value d j v) = ctl_id d == ctl_id c
touches c (set_enum d n) = ctl_id d == ctl_id c

-- No call is on the control.
abbrev pub Untouched : Ctl → List MixerCall → Type 0
Untouched c = All λ call. touches c call ≡ false

pub last_value-Untouched :
    (c : Ctl) (i : ℕ) (cs : List MixerCall) → Untouched c cs → last_value c i cs ≡ none
last_value-Untouched c i [] h = refl
last_value-Untouched c i (set_value d j v ∷ cs) h = rw (last_value-Untouched c i cs h.1, h.0)
last_value-Untouched c i (set_enum d n ∷ cs) h = last_value-Untouched c i cs h.1

set_values-Untouched :
    (c d : Ctl) (n j : ℕ) (v : ℤ)
    → (ctl_id d == ctl_id c) ≡ false
    → Untouched c (set_values d n j v)
unfolding set_values
set_values-Untouched c d zero j v h = tt
set_values-Untouched c d (suc n) j v h = (h, set_values-Untouched c d n (j + 1) v h)

write_setting-Untouched :
    (m : Mixer) (c d : Ctl) (v : ℤ) (o : Option EnumName) (en : Bool)
    → (ctl_id d == ctl_id c) ≡ false
    → Untouched c (write_setting m d v o en)
unfolding write_setting
write_setting-Untouched m c d v (some n) en h = (h, tt)
write_setting-Untouched m c d v none en h =
    set_values-Untouched c d (m.num_values d) 0 (if en then v else pos 0) h

pub route-Untouched :
    (m : Mixer) (c : Ctl) (rs : List RouteSetting) (en : Bool)
    → Avoids c rs
    → Untouched c (set_route_by_array m rs en).1
unfolding set_route_by_array
route-Untouched m c [] en h = tt
route-Untouched m c (r ∷ rs) en h = elim (Bool-cases (m.has_ctl r.ctl_name)) [
  | inl e ↦ rw e (
      All-append (λ call. touches c call ≡ false) (write_setting m r.ctl_name r.intval r.strval en)
        (set_route_by_array m rs en).1
        (write_setting-Untouched m c r.ctl_name r.intval r.strval en h.0)
        (route-Untouched m c rs en h.1))
  | inr e ↦ rw e tt
]

pub append-Untouched :
    (c : Ctl) (xs ys : List MixerCall) → Untouched c xs → Untouched c ys → Untouched c (xs ++ ys)
append-Untouched c xs ys hx hy = All-append (λ call. touches c call ≡ false) xs ys hx hy

-- The control is none of a list.
abbrev pub NotIn : Ctl → List Ctl → Type 0
NotIn c = All λ d. (ctl_id d == ctl_id c) ≡ false

-- The same as a test, which a closed control passes by evaluation.
abbrev pub is_outside : Ctl → List Ctl → Bool
is_outside c [] = true
is_outside c (d ∷ ds) = not (ctl_id d == ctl_id c) && is_outside c ds

pub not_in : (c : Ctl) (ds : List Ctl) → is_outside c ds ≡ true → NotIn c ds
not_in c [] h = tt
not_in c (d ∷ ds) h = (ground arith, not_in c ds (ground arith))

-- The controls of a route array.
abbrev pub ctls : List RouteSetting → List Ctl
ctls [] = []
ctls (r ∷ rs) = r.ctl_name ∷ ctls rs

pub avoids : (c : Ctl) (rs : List RouteSetting) → is_outside c (ctls rs) ≡ true → Avoids c rs
avoids c [] h = tt
avoids c (r ∷ rs) h = (ground arith, avoids c rs (ground arith))

-- A route array leaves a control alone that stands outside it.
pub route-Untouched_outside :
    (m : Mixer) (c : Ctl) (rs : List RouteSetting) (en : Bool)
    → is_outside c (ctls rs) ≡ true
    → Untouched c (set_route_by_array m rs en).1
route-Untouched_outside m c rs en h = route-Untouched m c rs en (avoids c rs h)
