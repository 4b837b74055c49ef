-- ===== src/Sensors.antt =====
-- libsensors/InputEventReader.cpp: the circular reader of input events of the sensors HAL.
-- The buffer is a memory of cells 0 to mEvents - 1, pointers into it are indexes, and the constructor's
-- numEvents is the size n. What readv returns is an argument.
pub mod Fifo
pub mod Queue
pub mod Samsung
pub mod Tests
use android_device_samsung_t.Base.{
  ℕ, zero, suc, ◌+◌, ◌-◌, Bool, true, false, List, [], ◌∷◌, Option, none, some, is_zero, ltb, leb,
  ◌==◌, if◌then◌else◌, length, min,
}

-- class InputEventCircularReader, without mBuffer and mBufferEnd, which are 0 and m_events.
pub record Reader (T : Type 0) : Type 0 where
  pub cells : ℕ → T
  pub m_head : ℕ
  pub m_curr : ℕ
  pub m_events : ℕ
  pub m_free_space : ℕ

-- What readv gives: whole events, whole events and a part of one, or an errno. The bytes of the part, which
-- land in a free cell, are left out.
pub data Nread (T : Type 0) : Type 0 where
  whole partial : List T → Nread T
  failed : ℕ → Nread T

-- What fill returns: a number of events or -errno.
pub data Filled : Type 0 where
  filled not_filled : ℕ → Filled

abbrev pub einval : ℕ
einval = 22

abbrev pub has_events : Filled → Bool
has_events (filled zero) = false
has_events (filled (suc n)) = true
has_events (not_filled e) = false

module _ {T : Type 0} where
  abbrev pub new_reader : (ℕ → T) → ℕ → Reader T
  new_reader cells n = record {
    cells = cells;
    m_head = 0;
    m_curr = 0;
    m_events = n;
    m_free_space = n;
  }

  abbrev pub put_cell : (ℕ → T) → ℕ → T → ℕ → T
  put_cell cells i x j = if i == j then x else cells j

  -- The cell of event i of the two parts of iov: numFirst cells from mHead on, then those from mBuffer on.
  abbrev pub address : Reader T → ℕ → ℕ
  address r i =
      let num_first = min r.m_free_space (r.m_events - r.m_head) in
      if ltb i num_first then r.m_head + i else i - num_first

  -- readv's stores.
  unfoldable pub scatter : Reader T → ℕ → List T → (ℕ → T) → ℕ → T
  scatter r i [] cells = cells
  scatter r i (x ∷ xs) cells = scatter r (i + 1) xs (put_cell cells (address r i) x)

  abbrev pub read_events : Reader T → List T → Reader T
  read_events r xs =
      let head = r.m_head + length xs in
      record r {
        cells = scatter r 0 xs r.cells;
        m_head = if leb r.m_events head then head - r.m_events else head;
        m_free_space = r.m_free_space - length xs;
      }

  abbrev pub fill_with : Nread T → Reader T → Filled × Reader T
  fill_with (failed e) r = (not_filled e, r)
  fill_with (partial xs) r = (not_filled einval, record r { cells = scatter r 0 xs r.cells })
  fill_with (whole xs) r = (filled (length xs), read_events r xs)

  unfoldable pub fill : Nread T → Reader T → Filled × Reader T
  unfolding scatter
  fill n r = if is_zero r.m_free_space then (filled 0, r) else fill_with n r

  -- The event that `*events` points to, or false.
  abbrev pub pointed : Filled × Reader T → Option T × Reader T
  pointed (f, r) = (if has_events f then some (r.cells r.m_curr) else none, r)

  unfoldable pub read_event : Nread T → Reader T → Option T × Reader T
  unfolding fill
  read_event n r =
      if leb r.m_events r.m_free_space then pointed (fill n r) else (some (r.cells r.m_curr), r)

  unfoldable pub next : Reader T → Reader T
  next r = record r {
    m_curr = if leb r.m_events (r.m_curr + 1) then 0 else r.m_curr + 1;
    m_free_space = r.m_free_space + 1;
  }

  -- One round of the loop over the reader: an event and the step past it, or false.
  abbrev pub pass : Option T × Reader T → Option T × Reader T
  pass (none, r) = (none, r)
  pass (some x, r) = (some x, next r)

  -- A client that asks the reader over and over, also after a miss. Each round has what readv would
  -- give if the round called it.
  unfoldable pub run : List (Nread T) → Reader T → List (Option T)
  unfolding read_event next
  run [] r = []
  run (n ∷ ns) r = let (x, k) = pass (read_event n r) in x ∷ run ns k
