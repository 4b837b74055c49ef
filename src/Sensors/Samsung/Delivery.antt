-- ===== src/Sensors/Samsung/Delivery.antt =====
-- What readEvents of libsensors/SamsungSensorBase.cpp delivers.
use android_device_samsung_t.Base.{
  ℕ, zero, suc, ◌<◌, ◌≡◌, refl, sym, ap, ◌∙◌, subst, Bool, true, false, List, [], ◌∷◌, ◌++◌, Option,
  none, some, leb, if_split, if◌then◌else◌, length, take, All, arith,
}
use android_device_samsung_t.Sensors.{
  Reader, Nread, whole, partial, failed, filled, read_event, pass,
}
use android_device_samsung_t.Sensors.Fifo.{IsValid, contents, contents-next}
use android_device_samsung_t.Sensors.Queue.{Fits, round, empty_contents, round_lem}
use android_device_samsung_t.Sensors.Samsung.{
  InputEvent, SensorsEvent, Sensor, Received, eagain, first_answer, answer, offer, delivered,
  after_read, read_loop, read_pending, counted, read_events,
}

-- The events that readv delivers before it fails, delivers a part of an event or nothing.
abbrev pub arrivals : List (Nread InputEvent) → List InputEvent
arrivals [] = []
arrivals (whole [] ∷ ns) = []
arrivals (whole (x ∷ xs) ∷ ns) = x ∷ xs ++ arrivals ns
arrivals (partial xs ∷ ns) = []
arrivals (failed e ∷ ns) = []

abbrev pub add : {V : Type 0} → Option V → List V → List V
add none ys = ys
add (some y) ys = y ∷ ys

-- The events that a sensor accepts, as it reports them.
unfoldable pub accepted : {V : Type 0} → (InputEvent → Option V) → List InputEvent → List V
accepted f [] = []
accepted f (e ∷ es) = add (f e) (accepted f es)

-- A round takes the first of the events that are at hand or arrive, or there is none.
abbrev Next :
    List InputEvent → List (Nread InputEvent) → Option InputEvent × List InputEvent → Type 0
Next all ns (none, q) = all ≡ []
Next all ns (some e, q) = all ≡ e ∷ q ++ arrivals ns

answer_arrivals :
    (ns : List (Nread InputEvent))
    → Next (arrivals ns) ((first_answer ns).1) (round ((first_answer ns).0) [])
answer_arrivals [] = refl
answer_arrivals (whole [] ∷ ns) = refl
answer_arrivals (whole (x ∷ xs) ∷ ns) = refl
answer_arrivals (partial xs ∷ ns) = refl
answer_arrivals (failed e ∷ ns) = refl

answer-Next :
    (r : Reader InputEvent) (ns : List (Nread InputEvent))
    → IsValid r
    → Next (contents r ++ arrivals ns) ((answer r ns).1) (round ((answer r ns).0) (contents r))
answer-Next r ns v =
    if_split
      (λ (p : Nread InputEvent × List (Nread InputEvent)).
        Next (contents r ++ arrivals ns) (p.1) (round (p.0) (contents r)))
      (leb r.m_events r.m_free_space)
      (λ b.
        subst (λ q. Next (q ++ arrivals ns) ((first_answer ns).1) (round ((first_answer ns).0) q))
          (sym (empty_contents r (ground (arith, b)))) (answer_arrivals ns))
      (λ b.
        subst (λ q. Next (q ++ arrivals ns) ns (round (failed eagain) q))
          (sym (contents-next r v (ground (arith, b)))) refl)

-- Answers that the reader has room for.
AllFit : ℕ → Nread InputEvent × List (Nread InputEvent) → Type 0
AllFit size (n, ns) = Fits size n × All (Fits size) ns

first-AllFit :
    (size : ℕ) (ns : List (Nread InputEvent)) → All (Fits size) ns → AllFit size (first_answer ns)
unfolding AllFit
first-AllFit size [] f = (tt, tt)
first-AllFit size (n ∷ ns) f = f

answer-AllFit :
    (r : Reader InputEvent) (ns : List (Nread InputEvent))
    → All (Fits r.m_events) ns
    → AllFit r.m_events (answer r ns)
unfolding AllFit
answer-AllFit r ns f =
    if_split (AllFit r.m_events) (leb r.m_events r.m_free_space) (λ b. first-AllFit r.m_events ns f)
      (λ b. (tt, f))

shorter : (n m fuel : ℕ) → suc n ≡ m → m < suc fuel → n < fuel
shorter n m fuel e h = omega (arith, e, h)

module _ {V : Type 0} (handle : InputEvent → Option V) where
  -- What a sensor makes of the events.
  abbrev pub offers : Sensor V → List InputEvent → List (SensorsEvent V)
  offers s es = accepted (offer handle s.m_enabled s.m_sensor_code) es

  -- What a loop that has enough fuel delivers, whatever it starts from.
  abbrev Delivers : (ℕ → Sensor V → Received V) → ℕ → List (Nread InputEvent) → Type 0
  Delivers go fuel ns =
      (count : ℕ) (s : Sensor V)
      → IsValid s.m_input_reader
      → All (Fits ((s.m_input_reader).m_events)) ns
      → length (contents s.m_input_reader ++ arrivals ns) < fuel
      → (go count s).events ≡ take count (offers s (contents s.m_input_reader ++ arrivals ns))

  offered_lem :
      (go : ℕ → Sensor V → Received V) (fuel : ℕ) (ns : List (Nread InputEvent))
      → Delivers go fuel ns
      → (count : ℕ) (s : Sensor V) (o : Option (SensorsEvent V)) → IsValid s.m_input_reader
      → All (Fits ((s.m_input_reader).m_events)) ns
      → length (contents s.m_input_reader ++ arrivals ns) < fuel
      → (delivered go count s o).events
        ≡ take (suc count) (add o (offers s (contents s.m_input_reader ++ arrivals ns)))
  offered_lem go fuel ns ih count s none v f h = ih (suc count) s v f h
  offered_lem go fuel ns ih count s (some x) v f h =
      ap (λ l. x ∷ l) (ih count (record s { m_pending_event = x }) v f h)

  step_lem :
      (go : ℕ → Sensor V → Received V) (fuel : ℕ) (ns : List (Nread InputEvent))
      → Delivers go fuel ns
      → (count : ℕ) (s : Sensor V) (all : List InputEvent)
        (p : Option InputEvent × Reader InputEvent)
      → IsValid (p.1)
      → All (Fits ((p.1).m_events)) ns
      → Next all ns (p.0, contents (p.1))
      → length all < suc fuel
      → (after_read handle go count ns s p).events ≡ take (suc count) (offers s all)
  unfolding accepted
  step_lem go fuel ns ih count s all (none, k) v f e h =
      ap (λ l. take (suc count) (offers s l)) (sym e)
  step_lem go fuel ns ih count s all (some x, k) v f e h =
      offered_lem go fuel ns ih count (record s { m_input_reader = k })
        (offer handle s.m_enabled s.m_sensor_code x) v f
        (shorter (length (contents k ++ arrivals ns)) (length all) fuel (sym (ap length e)) h)
      ∙ ap (λ l. take (suc count) (offers s l)) (sym e)

  loop_lem : (fuel : ℕ) (ns : List (Nread InputEvent)) → Delivers (read_loop handle fuel ns) fuel ns
  unfolding read_loop AllFit
  loop_lem zero ns count s v f h = absurd (omega (arith, h))
  loop_lem (suc fuel) ns zero s v f h = refl
  loop_lem (suc fuel) ns (suc count) s v f h =
      let r = s.m_input_reader in
      let (n, left) = answer r ns in
      let fits = answer-AllFit r ns f in
      let (t, e, q) = round_lem n r v (fits.0) in
      step_lem (read_loop handle fuel left) fuel left (loop_lem fuel left) count s
        (contents r ++ arrivals ns) (pass (read_event n r)) t
        (subst (λ m. All (Fits m) left) (sym e) (fits.1))
        (subst (Next (contents r ++ arrivals ns) left) (sym q) (answer-Next r ns v)) h

  -- The branch without a pending event.
  not_pending :
      (b : Bool) (x y : Received V) (l : List (SensorsEvent V))
      → b ≡ false
      → y.events ≡ l
      → let (status, out) = counted (if b then x else y) in
        (out.events ≡ l) × (status ≡ filled (length l))
  not_pending true x y l e d = cc
  not_pending false x y l e d = (d, ap (λ m. filled (length m)) d)

  -- readEvents without a pending event, called for at least one, gives the caller the events that the
  -- sensor accepts, in order, up to the number asked for: first those that the reader holds, then those
  -- that readv delivers until it fails or has none. It returns their number. The loop has more fuel than
  -- there are events, and readv delivers at most as many as the reader has cells.
  pub read_events_lem :
      (now fuel count : ℕ) (ns : List (Nread InputEvent)) (s : Sensor V)
      → s.m_has_pending_event ≡ false
      → IsValid s.m_input_reader
      → All (Fits ((s.m_input_reader).m_events)) ns
      → length (contents s.m_input_reader ++ arrivals ns) < fuel
      → let sent = take (suc count) (offers s (contents s.m_input_reader ++ arrivals ns)) in
        let (status, out) = read_events handle now fuel ns (suc count) s in
        (out.events ≡ sent) × (status ≡ filled (length sent))
  unfolding read_events
  read_events_lem now fuel count ns s p v f h =
      not_pending s.m_has_pending_event (read_pending now ns s)
        (read_loop handle fuel ns (suc count) s)
        (take (suc count) (offers s (contents s.m_input_reader ++ arrivals ns))) p
        (loop_lem fuel ns (suc count) s v f h)
