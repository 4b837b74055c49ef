-- ===== src/Sensors/Queue.antt =====
-- The circular reader of libsensors/InputEventReader.cpp as a queue of events.
use android_device_samsung_t.Base.{
  ℕ, zero, suc, ◌-◌, ◌≤◌, ◌<◌, ◌≡◌, refl, sym, ap, ap₂, ◌∙◌, subst, true, List, [], ◌∷◌, ◌++◌,
  Option, none, some, is_zero, leb, if_split, length, All, arith,
}
use android_device_samsung_t.Sensors.{
  Reader, Nread, whole, partial, failed, scatter, read_events, fill_with, fill, pointed, Filled,
  read_event, next, pass, run,
}
use android_device_samsung_t.Sensors.Fifo.{
  IsValid, contents, window, fill_contents, fill-IsValid, contents-next, next-IsValid,
}

-- The whole events of a call of readv.
abbrev pub events_of : {T : Type 0} → Nread T → List T
events_of (whole xs) = xs
events_of (partial xs) = []
events_of (failed e) = []

module _ {T : Type 0} where
  -- The oldest event, which leaves the queue.
  abbrev pub take_first : List T → Option T × List T
  take_first [] = (none, [])
  take_first (x ∷ q) = (some x, q)

  -- A round on a queue: an empty one takes the events of the call of readv.
  abbrev pub round : Nread T → List T → Option T × List T
  round n [] = take_first (events_of n)
  round n (x ∷ q) = (some x, q)

  unfoldable pub queue_run : List (Nread T) → List T → List (Option T)
  queue_run [] q = []
  queue_run (n ∷ ns) q = let (x, p) = round n q in x ∷ queue_run ns p

  -- A call of readv stores no more events than the reader has cells.
  abbrev pub Fits : ℕ → Nread T → Type 0
  Fits size (whole xs) = length xs ≤ size
  Fits size (partial xs) = length xs ≤ size
  Fits size (failed e) = Unit

  -- A round of the reader is a round of its queue.
  abbrev pub Refines : Nread T → Reader T → Option T × Reader T → Type 0
  Refines n r (x, k) =
      IsValid k × (k.m_events ≡ r.m_events) × ((x, contents k) ≡ round n (contents r))

  -- With events in hand.
  pass-some :
      (n : Nread T) (r : Reader T)
      → IsValid r
      → r.m_free_space < r.m_events
      → Refines n r (pass (some (r.cells r.m_curr), r))
  unfolding next
  pass-some n r s h = (next-IsValid r s h, refl, sym (ap (round n) (contents-next r s h)))

  empty_window : (cells : ℕ → T) (n c k : ℕ) → k ≡ 0 → window cells n c 0 k ≡ []
  unfolding window
  empty_window cells n c k e = rw e refl

  pub empty_contents : (r : Reader T) → r.m_events ≤ r.m_free_space → contents r ≡ []
  empty_contents r h =
      empty_window r.cells r.m_events r.m_curr (r.m_events - r.m_free_space) (omega arith)

  -- An empty reader that got no event stays empty.
  none_pass :
      (n : Nread T) (r k : Reader T)
      → take_first (events_of n) ≡ (none, [])
      → contents r ≡ []
      → contents k ≡ []
      → (none, contents k) ≡ round n (contents r)
  none_pass n r k e p q = ap (λ (l : List T). (none, l)) q ∙ sym e ∙ sym (ap (round n) p)

  fill_pass :
      (n : Nread T) (r : Reader T)
      → IsValid r
      → Fits r.m_events n
      → r.m_events ≤ r.m_free_space
      → Refines n r (pass (pointed (fill_with n r)))
  unfolding next
  fill_pass (failed e) r s f h =
      (s, refl, none_pass (failed e) r r refl (empty_contents r h) (empty_contents r h))
  fill_pass (partial xs) r s f h = (
    record {
      has_room = s.has_room;
      free_fits = s.free_fits;
      curr_in = s.curr_in;
      head_at = s.head_at;
    },
    refl,
    none_pass (partial xs) r (record r { cells = scatter r 0 xs r.cells }) refl (empty_contents r h)
        (empty_contents (record r { cells = scatter r 0 xs r.cells }) h),
  )
  fill_pass (whole []) r s f h = (
    fill-IsValid r [] s (omega arith),
    refl,
    none_pass (whole []) r (read_events r []) refl (empty_contents r h)
        (empty_contents (read_events r []) (omega (arith, h))),
  )
  fill_pass (whole (x ∷ xs)) r s f h = (
    next-IsValid k valid less,
    refl,
    sym (ap take_first (contents-next k valid less))
        ∙ ap take_first (
            fill_contents r (x ∷ xs) s (omega (arith, h, f))
            ∙ ap (λ l. l ++ x ∷ xs) (empty_contents r h))
        ∙ sym (ap (round (whole (x ∷ xs))) (empty_contents r h)),
  )
    where
      k : Reader T
      k = read_events r (x ∷ xs)

      valid : IsValid k
      valid = fill-IsValid r (x ∷ xs) s (omega (arith, h, f))

      less : r.m_free_space - suc (length xs) < r.m_events
      less = omega (arith, s.free_fits, s.has_room)

  -- An empty reader has free cells, so fill calls readv.
  filled_pass :
      (n : Nread T) (r : Reader T)
      → IsValid r
      → Fits r.m_events n
      → r.m_events ≤ r.m_free_space
      → Refines n r (pass (pointed (fill n r)))
  unfolding fill
  filled_pass n r s f h =
      if_split (λ (p : Filled × Reader T). Refines n r (pass (pointed p))) (is_zero r.m_free_space)
        (λ b. absurd (none_free r.m_free_space b (omega (arith, s.has_room))))
        (λ b. fill_pass n r s f h)
    where
      none_free : (m : ℕ) → is_zero m ≡ true → 0 < m → ⊥
      none_free zero b p = omega arith
      none_free (suc m) b p = cc

  pub round_lem :
      (n : Nread T) (r : Reader T)
      → IsValid r
      → Fits r.m_events n
      → Refines n r (pass (read_event n r))
  unfolding read_event
  round_lem n r s f =
      if_split (λ p. Refines n r (pass p)) (leb r.m_events r.m_free_space)
        (λ b. filled_pass n r s f (ground (arith, b))) (λ b. pass-some n r s (ground (arith, b)))

  -- A client that asks a valid reader over and over gets the events of a queue of its contents: those that
  -- readv delivers, each once and in order, with a miss where readv fails, delivers a part of an event or
  -- nothing. readv is called only where the reader is empty, and delivers at most as many events as it has
  -- cells.
  pub run_refines :
      (ns : List (Nread T)) (r : Reader T)
      → IsValid r
      → All (Fits r.m_events) ns
      → run ns r ≡ queue_run ns (contents r)
  unfolding run queue_run
  run_refines [] r s f = refl
  run_refines (n ∷ ns) r s f =
      let (t, e, q) = round_lem n r s f.0 in
      let k = (pass (read_event n r)).1 in
      ap₂ ◌∷◌ (ap (λ p. p.0) q) (
        run_refines ns k t (subst (λ m. All (Fits m) ns) (sym e) f.1)
        ∙ ap (queue_run ns) (ap (λ p. p.1) q))
