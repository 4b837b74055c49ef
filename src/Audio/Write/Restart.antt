-- ===== src/Audio/Write/Restart.antt =====
-- The restart of the HDMI output of audio/audio_hw.c after its first periods.
use android_device_samsung_t.Base.{
  and_true, and_false, ℕ, zero, suc, ◌-◌, ◌≡◌, refl, ap, ◌∙◌, subst, Bool, false, List, [], ◌∷◌,
  Option, none, some, length, if_both, arith, inl, inr, true, not, ◌&&◌, ◌==◌, is_some, Bool-cases,
  sym,
}
use android_device_samsung_t.Audio.Device.{Hal, Env, StreamOut, hdmi, is_running}
use android_device_samsung_t.Audio.Mixer.{Status}
use android_device_samsung_t.Audio.Open.{is_ok}
use android_device_samsung_t.Audio.Standby.{do_output_standby}
use android_device_samsung_t.Audio.Standby.Slots.{Slots, stopped, do_output_standby-slots}
use android_device_samsung_t.Audio.Start.{start_output_stream_hdmi, open_pcm}
use android_device_samsung_t.Audio.Write.{
  Player, wake, started, leave_standby, count_down, put_count, count_period, counted, hdmi_written,
  out_write_hdmi,
}

-- restart_periods_cnt of the HDMI output, if it is open.
abbrev pub left_in : Option StreamOut → Option ℕ
left_in none = none
left_in (some o) = some o.restart_periods_cnt

abbrev pub periods_left : Hal → Option ℕ
periods_left h = left_in h.hdmi

left_stopped : (s : Option StreamOut) → left_in (stopped s) ≡ left_in s
left_stopped none = refl
left_stopped (some o) = ground arith

idle-stopped : (s : Option StreamOut) → is_running (stopped s) ≡ false
idle-stopped none = refl
idle-stopped (some o) = ground arith

module _ (e : Env) where
  start_left :
      (o : StreamOut) (h : Hal)
      → periods_left (start_output_stream_hdmi e o h).1 ≡ some o.restart_periods_cnt
  unfolding start_output_stream_hdmi open_pcm
  start_left o h = ground arith

  leave_left :
      (k : Hal) (s : Option StreamOut)
      → k.hdmi ≡ s
      → periods_left (leave_standby e hdmi k s) ≡ left_in s
  leave_left k none q = ap left_in q
  leave_left k (some o) q = refl

  started_left : (st : Status) (k : Hal) → periods_left (started e hdmi (st, k)).1 ≡ periods_left k
  started_left st k =
      if_both (λ (r : Bool × Hal). periods_left r.1 ≡ periods_left k) (is_ok st)
        (leave_left k k.hdmi refl) refl

  wake_left :
      (o : StreamOut) (h : Hal)
      → h.hdmi ≡ some o
      → periods_left (wake e hdmi o h).1 ≡ some o.restart_periods_cnt
  unfolding wake
  wake_left o h q =
      if_both (λ (r : Bool × Hal). periods_left r.1 ≡ some o.restart_periods_cnt) o.standby
        (started_left (start_output_stream_hdmi e o h).0 (start_output_stream_hdmi e o h).1
          ∙ start_left o h)
        (ap left_in q)

  stop_left : (k : Hal) → periods_left (do_output_standby e hdmi k) ≡ periods_left k
  stop_left k =
      ap (λ (s : Slots). left_in s.2) (do_output_standby-slots e hdmi k) ∙ left_stopped k.hdmi

  stop_idle : (k : Hal) → is_running (do_output_standby e hdmi k).hdmi ≡ false
  stop_idle k =
      ap (λ (s : Slots). is_running s.2) (do_output_standby-slots e hdmi k) ∙ idle-stopped k.hdmi

  -- A write that could not start its output leaves it in standby, all others have it run.
  leave_runs :
      (k : Hal) (s : Option StreamOut)
      → k.hdmi ≡ s
      → is_some s ≡ true
      → is_running (leave_standby e hdmi k s).hdmi ≡ true
  leave_runs k none q z = cc
  leave_runs k (some o) q z = refl

  start_some : (o : StreamOut) (h : Hal) → is_some (start_output_stream_hdmi e o h).1.hdmi ≡ true
  unfolding start_output_stream_hdmi open_pcm
  start_some o h = ground arith

  start_standby :
      (o : StreamOut) (h : Hal)
      → o.standby ≡ true
      → is_running (start_output_stream_hdmi e o h).1.hdmi ≡ false
  unfolding start_output_stream_hdmi open_pcm
  start_standby o h s = ground (arith, s)

  started_runs :
      (st : Status) (k : Hal)
      → is_some k.hdmi ≡ true
      → is_running k.hdmi ≡ false
      → is_running (started e hdmi (st, k)).1.hdmi ≡ (started e hdmi (st, k)).0
  started_runs st k z i =
      if_both (λ (r : Bool × Hal). is_running r.1.hdmi ≡ r.0) (is_ok st)
        (leave_runs k k.hdmi refl z) i

  wake_runs :
      (o : StreamOut) (h : Hal)
      → h.hdmi ≡ some o
      → is_running (wake e hdmi o h).1.hdmi ≡ (wake e hdmi o h).0
  unfolding wake
  wake_runs o h q = elim (Bool-cases o.standby) [
    | inl s ↦ simp s (
        started_runs (start_output_stream_hdmi e o h).0 (start_output_stream_hdmi e o h).1
          (start_some o h) (start_standby o h s))
    | inr s ↦ simp s (ap is_running q ∙ ap not s)
  ]

  -- What the count of a period does: one less, and the output stops exactly with the last one.
  abbrev CountsDown : ℕ → Bool → Hal → Type 0
  CountsDown n ready k =
      (periods_left k ≡ some (n - 1)) × (is_running k.hdmi ≡ (ready && not (n == 1)))

  not_last : (n : ℕ) → true ≡ not (suc (suc n) == 1)
  not_last n = ground arith

  count_down_lem :
      (n : ℕ) (ready : Bool) (k : Hal) (o : StreamOut)
      → k.hdmi ≡ some o
      → periods_left k ≡ some n
      → is_running k.hdmi ≡ ready
      → CountsDown n ready (count_down e n o k)
  count_down_lem zero ready k o p q r = (q, r ∙ and_true ready)
  count_down_lem (suc zero) ready k o p q r =
      (stop_left (put_count e 0 o k), stop_idle (put_count e 0 o k) ∙ and_false ready)
  count_down_lem (suc (suc n)) ready k o p q r = (
    ap some (omega arith),
    sym (ap is_running p) ∙ r ∙ and_true ready ∙ ap (λ (b : Bool). ready && b) (not_last n),
  )

  counted_lem :
      (n : ℕ) (ready : Bool) (k : Hal) (s : Option StreamOut)
      → k.hdmi ≡ s
      → left_in s ≡ some n
      → is_running k.hdmi ≡ ready
      → CountsDown n ready (counted e k s)
  unfolding count_period
  counted_lem n ready k none q z r = absurd (ground (arith, z))
  counted_lem n ready k (some o) q z r =
      subst (λ m. CountsDown m ready (count_down e o.restart_periods_cnt o k)) (same z)
        (count_down_lem o.restart_periods_cnt ready k o q (ap left_in q) r)
    where
      same : some o.restart_periods_cnt ≡ some n → o.restart_periods_cnt ≡ n
      same z = ground (arith, z)

  module _ {D : Type 0} (v : Player D) where
    write_lem :
        (o : StreamOut) (sound : List ℕ) (h : Hal) (d : D)
        → h.hdmi ≡ some o
        → CountsDown o.restart_periods_cnt (wake e hdmi o h).0 (out_write_hdmi e v o sound h d).0
    unfolding out_write_hdmi hdmi_written
    write_lem o sound h d q =
        counted_lem o.restart_periods_cnt (wake e hdmi o h).0 (wake e hdmi o h).1
          (wake e hdmi o h).1.hdmi refl (wake_left o h q) (wake_runs o h q)

    -- Writes of sounds one after the other, to the HDMI output where it is open.
    abbrev pub write_one : List ℕ → Option StreamOut → Hal × D → Hal × D
    write_one sound none s = s
    write_one sound (some o) s = out_write_hdmi e v o sound s.0 s.1

    unfoldable pub writes : List (List ℕ) → Hal × D → Hal × D
    writes [] s = s
    writes (sound ∷ rest) s = writes rest (write_one sound s.0.hdmi s)

    -- A write to the open output.
    abbrev pub Writes : ℕ → List ℕ → Hal × D → Type 0
    Writes n sound s =
        (o : StreamOut) × (s.0.hdmi ≡ some o)
        × (o.restart_periods_cnt ≡ n)
        × (periods_left (out_write_hdmi e v o sound s.0 s.1).0 ≡ some (n - 1))
        × (is_running (out_write_hdmi e v o sound s.0 s.1).0.hdmi
            ≡ ((wake e hdmi o s.0).0 && not (n == 1)))

    step_lem :
        (n : ℕ) (sound : List ℕ) (t : Option StreamOut) (s : Hal × D)
        → s.0.hdmi ≡ t
        → left_in t ≡ some n
        → Writes n sound s × (periods_left (write_one sound t s).0 ≡ some (n - 1))
    step_lem n sound none s q z = absurd (ground (arith, z))
    step_lem n sound (some o) s q z =
        let w =
          subst (λ m. CountsDown m (wake e hdmi o s.0).0 (out_write_hdmi e v o sound s.0 s.1).0)
            (same z) (write_lem o sound s.0 s.1 q) in
        ((o, q, same z, w.0, w.1), w.0)
      where
        same : some o.restart_periods_cnt ≡ some n → o.restart_periods_cnt ≡ n
        same z = ground (arith, z)

    -- Every write to the HDMI output, whether or not the output could be started, counts down one of the
    -- restart_periods_cnt periods of an open output, until none is left. The write after any number of
    -- others finds the output open. It leaves the output running exactly if the output ran or could be
    -- started and the write does not count the last period: the output stops with the last period,
    -- not before it and, where no period was left, not at all.
    pub out_write_hdmi-restarts :
        (sounds : List (List ℕ)) (last : List ℕ) (n : ℕ) (h : Hal) (d : D)
        → periods_left h ≡ some n
        → Writes (n - length sounds) last (writes sounds (h, d))
    unfolding writes
    out_write_hdmi-restarts [] last n h d q =
        subst (λ m. Writes m last (h, d)) (omega arith) (step_lem n last h.hdmi (h, d) refl q).0
    out_write_hdmi-restarts (sound ∷ rest) last n h d q =
        let s = write_one sound h.hdmi (h, d) in
        let step = step_lem n sound h.hdmi (h, d) refl q in
        subst (λ m. Writes m last (writes rest s)) (omega arith)
          (out_write_hdmi-restarts rest last (n - 1) s.0 s.1 step.1)
