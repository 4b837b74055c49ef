-- ===== src/Audio/Mixer/Route.antt =====
-- set_route_by_array of audio/audio_hw.c: what an array of settings leaves in the mixer.
use android_device_samsung_t.Base.{
  ℕ, ◌<◌, ◌≡◌, refl, Bool, true, false, List, [], ◌∷◌, ◌++◌, Option, none, some, arith, ◌==◌,
  if◌then◌else◌, ==_iff, All, All-mono, subst, sym,
}
use android_device_samsung_t.Base.Int.{ℤ, pos}
use android_device_samsung_t.Audio.Mixer.{
  Ctl, ctl_id, off, EnumName, MixerCall, Mixer, RouteSetting, ok, write_setting, set_route_by_array,
}
use android_device_samsung_t.Audio.Mixer.LastValue.{
  last_value, last_enum, last_value-append, last_enum-append, last_value-set_values,
  last_value-set_values_ne, last_enum-set_values,
}

-- No setting of the array is for this control.
abbrev pub Avoids : Ctl → List RouteSetting → Type 0
Avoids c = All λ r. (ctl_id r.ctl_name == ctl_id c) ≡ false

-- No control stands twice in the array.
abbrev pub Distinct : List RouteSetting → Type 0
Distinct [] = Unit
Distinct (r ∷ rs) = Avoids r.ctl_name rs × Distinct rs

-- The card has every control of the array.
abbrev pub HasAll : Mixer → List RouteSetting → Type 0
HasAll m = All λ r. m.has_ctl r.ctl_name ≡ true

module _ (m : Mixer) where
  setting_avoids :
      (d c : Ctl) (v : ℤ) (o : Option EnumName) (i : ℕ) (en : Bool)
      → (ctl_id d == ctl_id c) ≡ false
      → (last_value c i (write_setting m d v o en) ≡ none)
        × (last_enum c (write_setting m d v o en) ≡ none)
  unfolding write_setting
  setting_avoids d c v (some n) i en h = (refl, rw h)
  setting_avoids d c v none i en h = (
    last_value-set_values_ne c d i (m.num_values d) 0 (if en then v else pos 0) h,
    last_enum-set_values c d (m.num_values d) 0 (if en then v else pos 0),
  )

  -- An array writes to no other control, whether or not it is applied to its end.
  pub route-Avoids :
      (c : Ctl) (i : ℕ) (rs : List RouteSetting) (en : Bool)
      → Avoids c rs
      → (last_value c i (set_route_by_array m rs en).1 ≡ none)
        × (last_enum c (set_route_by_array m rs en).1 ≡ none)
  unfolding set_route_by_array
  route-Avoids c i [] en h = (refl, refl)
  route-Avoids c i (r ∷ rs) en h = ground (
    arith,
    setting_avoids r.ctl_name c r.intval r.strval i en h.0,
    route-Avoids c i rs en h.1,
    last_value-append c i (write_setting m r.ctl_name r.intval r.strval en)
        (set_route_by_array m rs en).1,
    last_enum-append c (write_setting m r.ctl_name r.intval r.strval en)
        (set_route_by_array m rs en).1,
  )

  -- A control holds what a setting is to leave there: its name, or "Off", in an enumerated control;
  -- its number, or 0, in every place of another one.
  abbrev pub Sets : Ctl → ℤ → Option EnumName → Bool → List MixerCall → Type 0
  Sets c v (some n) en calls = last_enum c calls ≡ some (if en then n else off)
  Sets c v none en calls =
      (i : ℕ) → i < m.num_values c → last_value c i calls ≡ some (if en then v else pos 0)

  setting-Sets :
      (c : Ctl) (v : ℤ) (o : Option EnumName) (en : Bool) → Sets c v o en (write_setting m c v o en)
  unfolding write_setting
  setting-Sets c v (some n) en = rw ((==_iff (ctl_id c) (ctl_id c)).1 refl)
  setting-Sets c v none en = λ i h.
      last_value-set_values c c i (m.num_values c) 0 (if en then v else pos 0)
        ((==_iff (ctl_id c) (ctl_id c)).1 refl) (omega arith) (omega arith)

  -- Calls on other controls come after it, or before it.
  Sets-then :
      (c : Ctl) (v : ℤ) (o : Option EnumName) (en : Bool) (xs ys : List MixerCall)
      → ((i : ℕ) → last_value c i ys ≡ none)
      → last_enum c ys ≡ none
      → Sets c v o en xs
      → Sets c v o en (xs ++ ys)
  Sets-then c v (some n) en xs ys hv he s = rw (last_enum-append c xs ys, he) s
  Sets-then c v none en xs ys hv he s = λ i h. rw (last_value-append c i xs ys, hv i) (s i h)

  Sets-after :
      (c : Ctl) (v : ℤ) (o : Option EnumName) (en : Bool) (xs ys : List MixerCall)
      → Sets c v o en ys
      → Sets c v o en (xs ++ ys)
  Sets-after c v (some n) en xs ys s = rw (last_enum-append c xs ys, s)
  Sets-after c v none en xs ys s = λ i h. rw (last_value-append c i xs ys, s i h)

  route-ok :
      (rs : List RouteSetting) (en : Bool) → HasAll m rs → (set_route_by_array m rs en).0 ≡ ok
  unfolding set_route_by_array
  route-ok [] en h = refl
  route-ok (r ∷ rs) en h = rw (h.0) (route-ok rs en h.1)

  route-cons :
      (r : RouteSetting) (rs : List RouteSetting) (en : Bool)
      → m.has_ctl r.ctl_name ≡ true
      → (set_route_by_array m (r ∷ rs) en).1
        ≡ write_setting m r.ctl_name r.intval r.strval en ++ (set_route_by_array m rs en).1
  unfolding set_route_by_array
  route-cons r rs en h = rw h

  route-Sets :
      (rs : List RouteSetting) (en : Bool)
      → HasAll m rs
      → Distinct rs
      → All (λ r. Sets r.ctl_name r.intval r.strval en (set_route_by_array m rs en).1) rs
  route-Sets [] en h d = tt
  route-Sets (r ∷ rs) en h d =
      subst (λ calls. All (λ q. Sets q.ctl_name q.intval q.strval en calls) (r ∷ rs))
        (sym (route-cons r rs en h.0))
        (
          Sets-then r.ctl_name r.intval r.strval en
              (write_setting m r.ctl_name r.intval r.strval en) (set_route_by_array m rs en).1
              (λ i. (route-Avoids r.ctl_name i rs en d.0).0) (route-Avoids r.ctl_name 0 rs en d.0).1
              (setting-Sets r.ctl_name r.intval r.strval en),
          All-mono _ _ rs
              (λ q.
                Sets-after q.ctl_name q.intval q.strval en
                  (write_setting m r.ctl_name r.intval r.strval en) (set_route_by_array m rs en).1)
              (route-Sets rs en h.1 d.1),
        )

  -- If the card has every control of an array with no control twice, then applying the array
  -- succeeds, every setting's control holds what the setting says (enabled or not), and any other
  -- control is left alone.
  pub route_lem :
      (rs : List RouteSetting) (en : Bool)
      → HasAll m rs
      → Distinct rs
      → ((set_route_by_array m rs en).0 ≡ ok)
        × All (λ r. Sets r.ctl_name r.intval r.strval en (set_route_by_array m rs en).1) rs
        × ((c : Ctl) (i : ℕ)
            → Avoids c rs
            → (last_value c i (set_route_by_array m rs en).1 ≡ none)
              × (last_enum c (set_route_by_array m rs en).1 ≡ none))
  route_lem rs en h d = (route-ok rs en h, route-Sets rs en h d, λ c i. route-Avoids c i rs en)
