-- ===== src/Sensors/Samsung/Tests.antt =====
-- A call of readEvents of libsensors/SamsungSensorBase.cpp for the proximity sensor, with readings as numbers.
use android_device_samsung_t.Base.{
  ℕ, ◌≡◌, refl, true, false, List, [], ◌∷◌, ◌++◌, Option, some, length, take, arith,
}
use android_device_samsung_t.Base.Int.{ℤ, pos}
use android_device_samsung_t.Sensors.{Nread, whole, failed, filled, new_reader, read_event, next}
use android_device_samsung_t.Sensors.Fifo.{IsValid, contents, window}
use android_device_samsung_t.Sensors.Samsung.{InputEvent, SensorsEvent, Sensor, read_events}
use android_device_samsung_t.Sensors.Samsung.Delivery.{arrivals, offers, read_events_lem}

abbrev value_of : InputEvent → Option ℤ
value_of e = some e.value

-- An event of type 3 (EV_ABS) with code 25 (ABS_DISTANCE), and one of type 0 (EV_SYN).
abbrev distance : ℕ → InputEvent
distance d = record { tv_sec = 1; tv_usec = 5; event_type = 3; code = 25; value = pos d }

abbrev syn : InputEvent
syn = record { tv_sec = 1; tv_usec = 5; event_type = 0; code = 0; value = pos 0 }

abbrev proximity : Sensor ℤ
proximity = record {
  m_enabled = true;
  m_has_pending_event = false;
  m_input_reader = new_reader (λ i. syn) 4;
  m_pending_event = record { timestamp = 0; reading = pos 0 };
  m_sensor_code = 25;
}

abbrev read_back : List (Nread InputEvent)
read_back =
    whole (distance 0 ∷ syn ∷ distance 1 ∷ syn ∷ [])
    ∷ whole (distance 0 ∷ syn ∷ [])
    ∷ failed 11
    ∷ []

empty-IsValid : IsValid (proximity.m_input_reader)
empty-IsValid = record {
  has_room = omega arith;
  free_fits = omega arith;
  curr_in = omega arith;
  head_at = refl;
}

abbrev sent : List (SensorsEvent ℤ)
sent =
    record { timestamp = 1000005000; reading = pos 0 }
    ∷ record { timestamp = 1000005000; reading = pos 1 }
    ∷ []

-- Two of the three distances are asked for.
sends_two : ((read_events value_of 0 9 read_back 2 proximity).1).events ≡ sent
unfolding read_events read_event next
sends_two = refl

read_events_lem_example :
    let expected =
      take 2
        (offers value_of proximity (contents proximity.m_input_reader ++ arrivals read_back)) in
    let (status, out) = read_events value_of 0 9 read_back 2 proximity in
    (out.events ≡ expected) × (status ≡ filled (length expected))
unfolding window
read_events_lem_example =
    read_events_lem value_of 0 9 1 read_back proximity refl empty-IsValid
      (omega arith, (omega arith, (tt, tt))) (omega arith)
