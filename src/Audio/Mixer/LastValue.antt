-- ===== src/Audio/Mixer/LastValue.antt =====
-- What a mixer control holds after a list of calls: the last value written to it.
use android_device_samsung_t.Base.{
  ℕ, zero, suc, ◌+◌, ◌≤◌, ◌≡◌, refl, true, false, List, [], ◌∷◌, ◌++◌, Option, none, some, arith,
  ◌==◌, ◌&&◌, if◌then◌else◌, ◌<|>◌, Bool-cases, inl, inr, sym, ◌<◌, ◌⊎◌,
}
use android_device_samsung_t.Base.Int.{ℤ}
use android_device_samsung_t.Audio.Mixer.{
  Ctl, ctl_id, EnumName, MixerCall, set_value, set_enum, set_values,
}

-- The value that the calls leave in one place of an integer control, if they write it.
abbrev pub last_value : Ctl → ℕ → List MixerCall → Option ℤ
last_value c i [] = none
last_value c i (set_value d j v ∷ cs) =
    last_value c i cs <|> (if (ctl_id d == ctl_id c) && (j == i) then some v else none)
last_value c i (set_enum d n ∷ cs) = last_value c i cs

-- The name that the calls leave in an enumerated control.
abbrev pub last_enum : Ctl → List MixerCall → Option EnumName
last_enum c [] = none
last_enum c (set_value d j v ∷ cs) = last_enum c cs
last_enum c (set_enum d n ∷ cs) = last_enum c cs <|> (if ctl_id d == ctl_id c then some n else none)

or_assoc {ℓ} : {A : Type ℓ} (a b c : Option A) → ((a <|> b) <|> c) ≡ (a <|> (b <|> c))
or_assoc none b c = refl
or_assoc (some a) b c = refl

or-none {ℓ} : {A : Type ℓ} (a : Option A) → (a <|> none) ≡ a
or-none none = refl
or-none (some a) = refl

-- Later calls come first.
pub last_value-append :
    (c : Ctl) (i : ℕ) (xs ys : List MixerCall)
    → last_value c i (xs ++ ys) ≡ (last_value c i ys <|> last_value c i xs)
last_value-append c i [] ys = sym (or-none (last_value c i ys))
last_value-append c i (set_value d j v ∷ xs) ys =
    rw (last_value-append c i xs ys) (or_assoc (last_value c i ys) (last_value c i xs) _)
last_value-append c i (set_enum d n ∷ xs) ys = last_value-append c i xs ys

pub last_enum-append :
    (c : Ctl) (xs ys : List MixerCall)
    → last_enum c (xs ++ ys) ≡ (last_enum c ys <|> last_enum c xs)
last_enum-append c [] ys = sym (or-none (last_enum c ys))
last_enum-append c (set_value d j v ∷ xs) ys = last_enum-append c xs ys
last_enum-append c (set_enum d n ∷ xs) ys =
    rw (last_enum-append c xs ys) (or_assoc (last_enum c ys) (last_enum c xs) _)

pub last_enum-set_values : (c d : Ctl) (n j : ℕ) (v : ℤ) → last_enum c (set_values d n j v) ≡ none
unfolding set_values
last_enum-set_values c d zero j v = refl
last_enum-set_values c d (suc n) j v = last_enum-set_values c d n (j + 1) v

pub last_value-set_values_ne :
    (c d : Ctl) (i n j : ℕ) (v : ℤ)
    → (ctl_id d == ctl_id c) ≡ false
    → last_value c i (set_values d n j v) ≡ none
unfolding set_values
last_value-set_values_ne c d i zero j v h = refl
last_value-set_values_ne c d i (suc n) j v h = rw (last_value-set_values_ne c d i n (j + 1) v h, h)

-- The loop leaves the value or nothing.
last_value-among :
    (c d : Ctl) (i n j : ℕ) (v : ℤ)
    → (last_value c i (set_values d n j v) ≡ none) ⊎ (last_value c i (set_values d n j v) ≡ some v)
unfolding set_values
last_value-among c d i zero j v = inl refl
last_value-among c d i (suc n) j v = ground (arith, last_value-among c d i n (j + 1) v)

-- Every place from `j` on gets the value: both channels of a stereo control, set jointly.
pub last_value-set_values :
    (c d : Ctl) (i n j : ℕ) (v : ℤ)
    → (ctl_id d == ctl_id c) ≡ true
    → j ≤ i
    → i < j + n
    → last_value c i (set_values d n j v) ≡ some v
unfolding set_values
last_value-set_values c d i zero j v h l u = absurd (omega arith)
last_value-set_values c d i (suc n) j v h l u = elim (Bool-cases (j == i)) [
  | inl e ↦ elim (last_value-among c d i n (j + 1) v) [ inl o ↦ rw (o, h, e) | inr o ↦ rw o ]
  | inr e ↦ rw (last_value-set_values c d i n (j + 1) v h (ground arith) (omega arith))
]
