-- ===== src/Base/Lists.antt =====
-- Lists measured by native numbers, under the library's names.
use Prim.Native.Nat.{ℕ, zero, suc, min, ◌+◌, ◌-◌, ◌≤◌}
use native.Mathlib.Numerals.{unary_clauses}
use mathlib.Core.Path.{◌≡◌, refl, ap, sym, ◌∙◌}
use mathlib.Core.List.{map, List, [], ◌∷◌, ◌++◌}
use mathlib.Core.Option.{Option, none, some}
use native.Mathlib.Omega.{arith}
use android_device_samsung_t.Base.Tests.{ltb, if◌then◌else◌}

module _ {ℓ} {A : Type ℓ} where
  abbrev pub length : List A → ℕ
  length [] = 0
  length (x ∷ xs) = suc (length xs)

  abbrev pub replicate : ℕ → A → List A
  replicate zero a = []
  replicate (suc n) a = a ∷ replicate n a

  pub length-append : (xs ys : List A) → length (xs ++ ys) ≡ length xs + length ys
  length-append [] ys = omega arith
  length-append (x ∷ xs) ys = omega (arith, length-append xs ys)

pub suc_sum : (m n : ℕ) → suc (m + n) ≡ suc m + n
suc_sum m n = omega arith

-- Every element satisfies the predicate.
abbrev pub All {ℓ κ} : {A : Type ℓ} → (A → Type κ) → List A → Type κ
All P [] = Unit
All P (x ∷ xs) = P x × All P xs

pub All-append {ℓ κ} :
    {A : Type ℓ} (P : A → Type κ) (xs ys : List A) → All P xs → All P ys → All P (xs ++ ys)
All-append P [] ys hx hy = hy
All-append P (x ∷ xs) ys hx hy = (hx.0, All-append P xs ys hx.1 hy)

-- `a` where it is given, else `b`.
infixr 5 ◌<|>◌
abbrev pub ◌<|>◌ {ℓ} : {A : Type ℓ} → Option A → Option A → Option A
none <|> b = b
some a <|> b = some a

pub All-mono {ℓ κ μ} :
    {A : Type ℓ} (P : A → Type κ) (Q : A → Type μ) (xs : List A)
    → ((x : A) → P x → Q x)
    → All P xs
    → All Q xs
All-mono P Q [] f h = tt
All-mono P Q (x ∷ xs) f h = (f x h.0, All-mono P Q xs f h.1)

module _ {ℓ} {A : Type ℓ} where
  abbrev pub take : ℕ → List A → List A
  take zero xs = []
  take (suc n) [] = []
  take (suc n) (x ∷ xs) = x ∷ take n xs

  abbrev pub drop : ℕ → List A → List A
  drop zero xs = xs
  drop (suc n) [] = []
  drop (suc n) (x ∷ xs) = drop n xs

  -- memcpy(buf + n, xs, length(xs)).
  abbrev pub write_at : ℕ → List A → List A → List A
  write_at n xs buf = take n buf ++ xs ++ drop (n + length xs) buf

  pub take_all : (xs : List A) → take (length xs) xs ≡ xs
  take_all [] = refl
  take_all (x ∷ xs) = ap (λ ys. x ∷ ys) (take_all xs)

  pub length-take : (n : ℕ) (xs : List A) → length (take n xs) ≡ min n (length xs)
  length-take zero xs = omega arith
  length-take (suc n) [] = omega arith
  length-take (suc n) (x ∷ xs) = omega (arith, length-take n xs)

  pub length-drop : (n : ℕ) (xs : List A) → length (drop n xs) ≡ length xs - n
  length-drop zero xs = omega arith
  length-drop (suc n) [] = omega arith
  length-drop (suc n) (x ∷ xs) = omega (arith, length-drop n xs)

  pub take-take : (m n : ℕ) (xs : List A) → m ≤ n → take m (take n xs) ≡ take m xs
  take-take zero n xs h = refl
  take-take (suc m) zero xs h = absurd (omega arith)
  take-take (suc m) (suc n) [] h = refl
  take-take (suc m) (suc n) (x ∷ xs) h = ap (λ ys. x ∷ ys) (take-take m n xs (omega arith))

  pub take_shorter : (m n : ℕ) (xs : List A) → n ≤ m → take m (take n xs) ≡ take n xs
  take_shorter zero zero xs h = refl
  take_shorter zero (suc n) xs h = absurd (omega arith)
  take_shorter (suc m) zero xs h = refl
  take_shorter (suc m) (suc n) [] h = refl
  take_shorter (suc m) (suc n) (x ∷ xs) h = ap (λ ys. x ∷ ys) (take_shorter m n xs (omega arith))

  pub drop-drop : (m n : ℕ) (xs : List A) → drop m (drop n xs) ≡ drop (n + m) xs
  drop-drop m zero xs = ap (λ k. drop k xs) (omega arith)
  drop-drop zero (suc n) [] = simp unary_clauses refl
  drop-drop (suc m) (suc n) [] = simp unary_clauses refl
  drop-drop m (suc n) (x ∷ xs) = drop-drop m n xs ∙ ap (λ k. drop k (x ∷ xs)) (suc_sum n m)

  pub drop-take : (m n : ℕ) (xs : List A) → drop m (take (m + n) xs) ≡ take n (drop m xs)
  drop-take zero n xs = ap (λ k. take k xs) (omega arith)
  drop-take (suc m) zero [] = simp unary_clauses refl
  drop-take (suc m) (suc n) [] = simp unary_clauses refl
  drop-take (suc m) n (x ∷ xs) =
      ap (λ k. drop (suc m) (take k (x ∷ xs))) (sym (suc_sum m n)) ∙ drop-take m n xs

  -- In the window of the last r of p elements, the first k go.
  pub drop_window :
      (p r k : ℕ) (xs : List A)
      → k ≤ r
      → r ≤ p
      → take (r - k) (drop (p - (r - k)) xs) ≡ drop k (take r (drop (p - r) xs))
  drop_window p r k xs h g =
      ap (λ n. take (r - k) (drop n xs)) (omega arith)
      ∙ sym (ap (take (r - k)) (drop-drop k (p - r) xs))
      ∙ sym (drop-take k (r - k) (drop (p - r) xs))
      ∙ ap (λ n. drop k (take n (drop (p - r) xs))) (omega arith)

pub take_min :
    {A : Type 0} (n r : ℕ) (xs : List A) → take (if ltb r n then r else n) xs ≡ take n (take r xs)
take_min n r xs = ground (arith, take-take n r xs, take_shorter n r xs)

pub length-map {ℓ κ} :
    {A : Type ℓ} {B : Type κ} (f : A → B) (xs : List A) → length (map f xs) ≡ length xs
length-map f [] = refl
length-map f (x ∷ xs) = ap suc (length-map f xs)

-- A copy to the front that fits leaves a buffer its size.
pub length-write_at :
    {A : Type 0} (xs buf : List A)
    → length xs ≤ length buf
    → length (write_at 0 xs buf) ≡ length buf
length-write_at xs buf h =
    omega (arith, length-append xs (drop (0 + length xs) buf), length-drop (0 + length xs) buf)
