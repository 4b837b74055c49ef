-- ===== src/Sensors/Tests.antt =====
-- Runs of the circular reader of libsensors/InputEventReader.cpp, whose four cells go round.
use android_device_samsung_t.Base.{ℕ, ◌+◌, ◌≡◌, refl, List, [], ◌∷◌, none, some, arith}
use android_device_samsung_t.Sensors.{Reader, Nread, whole, partial, failed, run}
use android_device_samsung_t.Sensors.Fifo.{IsValid, contents}
use android_device_samsung_t.Sensors.Queue.{queue_run, run_refines}

-- One event is held in the last cell, so that the next ones go to the first.
abbrev at_end : Reader ℕ
at_end = record { cells = λ i. i + 40; m_head = 0; m_curr = 3; m_events = 4; m_free_space = 3 }

abbrev batches : List (Nread ℕ)
batches =
    failed 4
    ∷ whole (1 ∷ 2 ∷ 3 ∷ [])
    ∷ whole []
    ∷ failed 11
    ∷ partial (9 ∷ [])
    ∷ whole (5 ∷ 6 ∷ [])
    ∷ failed 11
    ∷ []

at_end-IsValid : IsValid at_end
at_end-IsValid = record {
  has_room = omega arith;
  free_fits = omega arith;
  curr_in = omega arith;
  head_at = refl;
}

at_end_runs : run batches at_end ≡ some 43 ∷ some 1 ∷ some 2 ∷ some 3 ∷ none ∷ some 5 ∷ some 6 ∷ []
unfolding run
at_end_runs = refl

run_refines_example : run batches at_end ≡ queue_run batches (contents at_end)
run_refines_example =
    run_refines batches at_end at_end-IsValid
      (tt, (omega arith, (omega arith, (tt, (omega arith, (omega arith, (tt, tt)))))))
