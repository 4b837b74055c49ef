-- ===== src/Sensors/Samsung.antt =====
-- libsensors/SamsungSensorBase.cpp: readEvents, over the circular reader of InputEventReader.cpp.
-- The virtual handleEvent is the parameter `handle`: the reading that it puts in mPendingEvent, or none
-- where it returns false. The sensor number and the type in mPendingEvent, which never change, are left out.
pub mod Delivery
mod Tests
use android_device_samsung_t.Base.{
  ℕ, zero, suc, ◌+◌, ◌*◌, Bool, true, false, List, [], ◌∷◌, Option, none, some, leb, ◌==◌, ◌&&◌,
  if◌then◌else◌, length,
}
use android_device_samsung_t.Base.Int.{ℤ}
use android_device_samsung_t.Sensors.{
  Reader, Nread, failed, Filled, filled, not_filled, einval, read_event, pass,
}

-- struct input_event, with its timeval in two fields.
pub record InputEvent : Type 0 where
  pub tv_sec : ℕ
  pub tv_usec : ℕ
  pub event_type : ℕ
  pub code : ℕ
  pub value : ℤ

-- sensors_event_t, with the reading of the sensor in its data.
pub record SensorsEvent (V : Type 0) : Type 0 where
  pub timestamp : ℕ
  pub reading : V

-- class SamsungSensorBase.
pub record Sensor (V : Type 0) : Type 0 where
  pub m_enabled : Bool
  pub m_has_pending_event : Bool
  pub m_input_reader : Reader InputEvent
  pub m_pending_event : SensorsEvent V
  pub m_sensor_code : ℕ

-- What a call of readEvents stores, the answers of readv that it leaves, and the sensor after it.
pub record Received (V : Type 0) : Type 0 where
  pub events : List (SensorsEvent V)
  pub answers : List (Nread InputEvent)
  pub sensor : Sensor V

abbrev pub ev_abs : ℕ
ev_abs = 3

abbrev pub eagain : ℕ
eagain = 11

abbrev pub timeval_to_nano : InputEvent → ℕ
timeval_to_nano e = e.tv_sec * 1000000000 + e.tv_usec * 1000

-- The answer of readv to a round, which asks for one only when the reader is empty. The descriptor does
-- not block: without further events it gives EAGAIN.
abbrev pub first_answer : List (Nread InputEvent) → Nread InputEvent × List (Nread InputEvent)
first_answer [] = (failed eagain, [])
first_answer (n ∷ ns) = (n, ns)

abbrev pub answer :
    Reader InputEvent → List (Nread InputEvent) → Nread InputEvent × List (Nread InputEvent)
answer r ns = if leb r.m_events r.m_free_space then first_answer ns else (failed eagain, ns)

abbrev pub stamped : {V : Type 0} → ℕ → Option V → Option (SensorsEvent V)
stamped t none = none
stamped t (some v) = some record { timestamp = t; reading = v }

module _ {V : Type 0} where
  abbrev pub store : SensorsEvent V → Received V → Received V
  store x out = record out { events = x ∷ out.events }

  abbrev pub delivered :
      (ℕ → Sensor V → Received V) → ℕ → Sensor V → Option (SensorsEvent V) → Received V
  delivered go count s none = go (suc count) s
  delivered go count s (some x) = store x (go count (record s { m_pending_event = x }))

  -- A pending event, with the time of the call.
  abbrev pub read_pending : ℕ → List (Nread InputEvent) → Sensor V → Received V
  read_pending now ns s =
      let x = record (s.m_pending_event) { timestamp = now } in
      if s.m_enabled
      then record {
        events = x ∷ [];
        answers = ns;
        sensor = record s { m_has_pending_event = false; m_pending_event = x };
      }
      else record { events = []; answers = ns; sensor = record s { m_has_pending_event = false } }

  abbrev pub counted : Received V → Filled × Received V
  counted out = (filled (length out.events), out)

module _ {V : Type 0} (handle : InputEvent → Option V) where
  -- What an event gives to the caller.
  abbrev pub offer : Bool → ℕ → InputEvent → Option (SensorsEvent V)
  offer enabled sensor_code e =
      if (e.event_type == ev_abs) && ((e.code == sensor_code) && enabled)
      then stamped (timeval_to_nano e) (handle e)
      else none

  abbrev pub after_read :
      (ℕ → Sensor V → Received V)
      → ℕ
      → List (Nread InputEvent)
      → Sensor V
      → Option InputEvent × Reader InputEvent
      → Received V
  after_read go count ns s (none, k) = record {
    events = [];
    answers = ns;
    sensor = record s { m_input_reader = k };
  }
  after_read go count ns s (some e, k) =
      delivered go count (record s { m_input_reader = k }) (offer s.m_enabled s.m_sensor_code e)

  unfoldable pub read_loop : ℕ → List (Nread InputEvent) → ℕ → Sensor V → Received V
  read_loop zero ns count s = record { events = []; answers = ns; sensor = s }
  read_loop (suc fuel) ns zero s = record { events = []; answers = ns; sensor = s }
  read_loop (suc fuel) ns (suc count) s =
      let (n, left) = answer s.m_input_reader ns in
      after_read (read_loop fuel left) count left s (pass (read_event n s.m_input_reader))

  -- readEvents, with the time, the fuel of its loop and what readv answers in a row.
  unfoldable pub read_events : ℕ → ℕ → List (Nread InputEvent) → ℕ → Sensor V → Filled × Received V
  unfolding read_loop
  read_events now fuel ns zero s =
      (not_filled einval, record { events = []; answers = ns; sensor = s })
  read_events now fuel ns (suc count) s =
      counted
        (if s.m_has_pending_event then read_pending now ns s else read_loop fuel ns (suc count) s)
