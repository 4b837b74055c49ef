-- ===== src/Sensors/Fifo.antt =====
-- The circular reader of libsensors/InputEventReader.cpp is a queue of the events that it holds.
use android_device_samsung_t.Base.{
  ℕ, zero, suc, ◌+◌, ◌-◌, ◌≤◌, ◌<◌, ◌≡◌, ◌≢◌, refl, sym, ap, ap₂, ◌∙◌, true, false, List, [], ◌∷◌,
  ◌++◌, ltb, leb, ◌==◌, ==_iff, if◌then◌else◌, if_split, length, append_assoc, append-nil, arith,
}
use android_device_samsung_t.Sensors.{Reader, put_cell, address, scatter, read_events, next}

abbrev pub wrap : ℕ → ℕ → ℕ
wrap n i = if ltb i n then i else i - n

plus_zero : (j : ℕ) → j ≡ j + 0
plus_zero j = omega arith

plus_one : (j k : ℕ) → j + 1 + k ≡ j + suc k
plus_one j k = omega arith

wrap_next :
    (n c j : ℕ)
    → c < n
    → j + 1 < n
    → wrap n (c + (j + 1)) ≡ wrap n ((if leb n (c + 1) then 0 else c + 1) + j)
wrap_next n c j h g = ground arith

counts : (len i m : ℕ) → len + i + suc m ≡ len + (i + 1) + m
counts len i m = omega arith

-- Two places on the way round are different.
wrap_apart : (n c j k : ℕ) → c < n → j < k → k < n → wrap n (c + j) ≡ wrap n (c + k) → ⊥
wrap_apart n c j k h a b q = ground (arith, q)

one_more : (n free : ℕ) → free < n → n - free ≡ suc (n - (free + 1))
one_more n free h = omega arith

wrap_in : (n c : ℕ) → c < n → wrap n (c + 0) ≡ c
wrap_in n c h = ground arith

module _ {T : Type 0} where
  -- The k cells from the j-th after index c on, going round at n.
  unfoldable pub window : (ℕ → T) → ℕ → ℕ → ℕ → ℕ → List T
  window cells n c j zero = []
  window cells n c j (suc k) = cells (wrap n (c + j)) ∷ window cells n c (j + 1) k

  -- The events that have been read and not been passed, oldest first.
  abbrev pub contents : Reader T → List T
  contents r = window r.cells r.m_events r.m_curr 0 (r.m_events - r.m_free_space)

  pub record IsValid (r : Reader T) : Type 0 where
    pub has_room : 0 < r.m_events
    pub free_fits : r.m_free_space ≤ r.m_events
    pub curr_in : r.m_curr < r.m_events
    pub head_at : r.m_head ≡ wrap r.m_events (r.m_curr + (r.m_events - r.m_free_space))

  other_cell : (cells : ℕ → T) (p i : ℕ) (x : T) → i ≢ p → put_cell cells p x i ≡ cells i
  other_cell cells p i x n =
      if_split (λ y. y ≡ cells i) (p == i) (λ b. absurd (n (sym ((==_iff p i).0 b)))) (λ b. refl)

  same_cell : (cells : ℕ → T) (p i : ℕ) (x : T) → i ≡ p → put_cell cells p x i ≡ x
  same_cell cells p i x e =
      if_split (λ y. y ≡ x) (p == i) (λ b. refl)
        (λ b. absurd (different b ((==_iff p i).1 (sym e))))
    where
      different : (p == i) ≡ false → (p == i) ≡ true → ⊥
      different b c = cc

  -- A store elsewhere leaves a window alone.
  window_put :
      (cells : ℕ → T) (n c j k p : ℕ) (x : T)
      → ((i : ℕ) → j ≤ i → i < j + k → wrap n (c + i) ≢ p)
      → window (put_cell cells p x) n c j k ≡ window cells n c j k
  unfolding window
  window_put cells n c j zero p x h = refl
  window_put cells n c j (suc k) p x h =
      ap₂ ◌∷◌ (other_cell cells p (wrap n (c + j)) x (h j (omega arith) (omega arith)))
        (window_put cells n c (j + 1) k p x (λ i a b. h i (omega arith) (omega arith)))

  window_snoc :
      (cells : ℕ → T) (n c j k : ℕ)
      → window cells n c j (suc k) ≡ window cells n c j k ++ cells (wrap n (c + (j + k))) ∷ []
  unfolding window
  window_snoc cells n c j zero = ap (λ i. cells (wrap n (c + i)) ∷ []) (plus_zero j)
  window_snoc cells n c j (suc k) =
      ap (λ l. cells (wrap n (c + j)) ∷ l)
        (window_snoc cells n c (j + 1) k
          ∙ ap (λ i. window cells n c (j + 1) k ++ cells (wrap n (c + i)) ∷ []) (plus_one j k))

  window_next :
      (cells : ℕ → T) (n c j k : ℕ)
      → c < n
      → j + k < n
      → window cells n c (j + 1) k ≡ window cells n (if leb n (c + 1) then 0 else c + 1) j k
  unfolding window
  window_next cells n c j zero h g = refl
  window_next cells n c j (suc k) h g =
      ap₂ ◌∷◌ (ap cells (wrap_next n c j h (omega arith)))
        (window_next cells n c (j + 1) k h (omega arith))

  -- The stores of readv behind a window extend it, while they stay off it.
  window-scatter :
      (r : Reader T) (n c len i : ℕ) (xs : List T) (cells : ℕ → T)
      → c < n
      → len + i + length xs ≤ n
      → ((k : ℕ) → k < i + length xs → address r k ≡ wrap n (c + (len + k)))
      → window (scatter r i xs cells) n c 0 (len + i + length xs)
        ≡ window cells n c 0 (len + i) ++ xs
  unfolding scatter
  window-scatter r n c len i [] cells h g f =
      ap (window cells n c 0) (sym (plus_zero (len + i)))
      ∙ sym (append-nil (window cells n c 0 (len + i)))
  window-scatter r n c len i (x ∷ xs) cells h g f =
      ap (window after n c 0) (counts len i (length xs))
      ∙ window-scatter r n c len (i + 1) xs stored h (omega arith) (λ k b. f k (omega arith))
      ∙ ap (λ l. l ++ xs) extended
      ∙ append_assoc (window cells n c 0 (len + i)) (x ∷ []) xs
    where
      stored : ℕ → T
      stored = put_cell cells (address r i) x

      after : ℕ → T
      after = scatter r (i + 1) xs stored

      place : address r i ≡ wrap n (c + (len + i))
      place = f i (omega arith)

      here : wrap n (c + (0 + (len + i))) ≡ wrap n (c + (len + i))
      here = ap (λ k. wrap n (c + k)) (omega arith)

      apart : (k : ℕ) → k < 0 + (len + i) → wrap n (c + k) ≡ wrap n (c + (len + i)) → ⊥
      apart k b q = wrap_apart n c k (len + i) h (omega arith) (omega arith) q

      extended : window stored n c 0 (len + (i + 1)) ≡ window cells n c 0 (len + i) ++ x ∷ []
      extended =
          ap (window stored n c 0) (omega arith)
          ∙ window_snoc stored n c 0 (len + i)
          ∙ ap₂ (λ l y. l ++ y ∷ [])
              (window_put cells n c 0 (len + i) (address r i) x (λ k a b q. apart k b (q ∙ place)))
              (same_cell cells (address r i) (wrap n (c + (0 + (len + i)))) x (here ∙ sym place))

  -- Where readv stores, from the first free cell on.
  address_lem :
      (r : Reader T) (k : ℕ)
      → IsValid r
      → k < r.m_free_space
      → address r k ≡ wrap r.m_events (r.m_curr + (r.m_events - r.m_free_space + k))
  address_lem r k s h = ground (arith, s.has_room, s.free_fits, s.curr_in, s.head_at)

  pub fill_contents :
      (r : Reader T) (xs : List T)
      → IsValid r
      → length xs ≤ r.m_free_space
      → contents (read_events r xs) ≡ contents r ++ xs
  fill_contents r xs s h =
      ap (window (scatter r 0 xs r.cells) r.m_events r.m_curr 0) (size s.free_fits)
      ∙ window-scatter r r.m_events r.m_curr (r.m_events - r.m_free_space) 0 xs r.cells s.curr_in
          (omega (arith, s.free_fits)) (λ k b. address_lem r k s (omega arith))
      ∙ ap (λ k. window r.cells r.m_events r.m_curr 0 k ++ xs)
          (sym (plus_zero (r.m_events - r.m_free_space)))
    where
      size :
          r.m_free_space ≤ r.m_events
          → r.m_events - (r.m_free_space - length xs) ≡ r.m_events - r.m_free_space + 0 + length xs
      size g = omega (arith, h)

  pub fill-IsValid :
      (r : Reader T) (xs : List T)
      → IsValid r
      → length xs ≤ r.m_free_space
      → IsValid (read_events r xs)
  fill-IsValid r xs s h = record {
    has_room = s.has_room;
    free_fits = omega (arith, s.free_fits);
    curr_in = s.curr_in;
    head_at = ground (arith, s.has_room, s.free_fits, s.curr_in, s.head_at);
  }

  pub contents-next :
      (r : Reader T)
      → IsValid r
      → r.m_free_space < r.m_events
      → contents r ≡ r.cells r.m_curr ∷ contents (next r)
  unfolding next window
  contents-next r s h =
      ap (window r.cells r.m_events r.m_curr 0) (one_more r.m_events r.m_free_space h)
      ∙ ap₂ ◌∷◌ (ap r.cells (wrap_in r.m_events r.m_curr s.curr_in)) (
          window_next r.cells r.m_events r.m_curr 0 (r.m_events - (r.m_free_space + 1)) s.curr_in
            (omega (arith, h)))

  pub next-IsValid : (r : Reader T) → IsValid r → r.m_free_space < r.m_events → IsValid (next r)
  unfolding next
  next-IsValid r s h = record {
    has_room = s.has_room;
    free_fits = omega arith;
    curr_in = ground (arith, s.curr_in, s.has_room);
    head_at = ground (arith, s.has_room, s.free_fits, s.curr_in, s.head_at);
  }
