-- ===== src/Audio/Standby/Slots.antt =====
-- The output streams after do_output_standby of audio/audio_hw.c.
use android_device_samsung_t.Base.{
  ℕ, ◌≡◌, refl, sym, ap, ◌∙◌, true, false, Option, none, some, arith, Bool-cases, if◌then◌else◌,
  inl, inr,
}
use android_device_samsung_t.Audio.Device.{
  Hal, Env, OutputType, deep_buf, low_latency, hdmi, StreamOut, get_output, put_output, is_running,
}
use android_device_samsung_t.Audio.Balance.{IsBalanced}
use android_device_samsung_t.Audio.Standby.{
  close_output, stage_off_if_idle, stop_echo, stop_output, do_output_standby, output_standby,
}
use android_device_samsung_t.Audio.Standby.Closing.{do_output_standby-Balanced}
use android_device_samsung_t.Audio.Standby.Frame.{call_state, do_output_standby-call_state}

-- A running stream after its standby.
abbrev pub stilled : StreamOut → StreamOut
stilled o = record o {
  standby = true;
  normal = none;
  spdif = none;
  hdmi = none;
  echo_reference = none;
}

abbrev pub Slots : Type 0
Slots = Option StreamOut × Option StreamOut × Option StreamOut

abbrev pub slots : Hal → Slots
slots h = (h.deep_buf, h.low_latency, h.hdmi)

stage_off_if_idle-slots : (e : Env) (h : Hal) → slots (stage_off_if_idle e h) ≡ slots h
unfolding stage_off_if_idle
stage_off_if_idle-slots e h = ground arith

close_output-slots :
    (t : OutputType) (o : StreamOut) (h : Hal)
    → slots (close_output t o h)
      ≡ slots (
          put_output t
            (some (record o { standby = true; normal = none; spdif = none; hdmi = none }))
            h)
unfolding close_output
close_output-slots deep_buf o h = refl
close_output-slots low_latency o h = refl
close_output-slots hdmi o h = refl

stop_echo-slots :
    (t : OutputType) (o : StreamOut) (h : Hal)
    → get_output t h ≡ some o
    → slots (stop_echo t h) ≡ slots (put_output t (some (record o { echo_reference = none })) h)
unfolding stop_echo
stop_echo-slots deep_buf o h g = ground arith
stop_echo-slots low_latency o h g = ground arith
stop_echo-slots hdmi o h g = ground arith

-- A stream after do_output_standby.
abbrev pub stopped : Option StreamOut → Option StreamOut
stopped none = none
stopped (some o) = if o.standby then some o else some (stilled o)

-- get_output t of three streams.
abbrev pub slot : OutputType → Slots → Option StreamOut
slot deep_buf s = s.0
slot low_latency s = s.1
slot hdmi s = s.2

get_output-slots : (t : OutputType) (h : Hal) → get_output t h ≡ slot t (slots h)
get_output-slots deep_buf h = refl
get_output-slots low_latency h = refl
get_output-slots hdmi h = refl

-- The streams, the one of type t replaced.
abbrev pub replaced : OutputType → Option StreamOut → Slots → Slots
replaced deep_buf o s = (o, s.1, s.2)
replaced low_latency o s = (s.0, o, s.2)
replaced hdmi o s = (s.0, s.1, o)

slots-put_output :
    (t : OutputType) (o : Option StreamOut) (h : Hal)
    → slots (put_output t o h) ≡ replaced t o (slots h)
slots-put_output deep_buf o h = refl
slots-put_output low_latency o h = refl
slots-put_output hdmi o h = refl

slot-replaced : (t : OutputType) (o : Option StreamOut) (s : Slots) → slot t (replaced t o s) ≡ o
slot-replaced deep_buf o s = refl
slot-replaced low_latency o s = refl
slot-replaced hdmi o s = refl

replaced-replaced :
    (t : OutputType) (o p : Option StreamOut) (s : Slots)
    → replaced t o (replaced t p s) ≡ replaced t o s
replaced-replaced deep_buf o p s = refl
replaced-replaced low_latency o p s = refl
replaced-replaced hdmi o p s = refl

-- The streams after stop_output, when its inner call leaves its own stream alone.
stop_output-slots :
    (e : Env) (t : OutputType) (o : StreamOut) (h : Hal) (f : Slots → Slots) (inner : Hal → Hal)
    → ((k : Hal) → slots (inner k) ≡ f (slots k))
    → ((p : Option StreamOut) (s : Slots) → f (replaced t p s) ≡ replaced t p (f s))
    → slots (stop_output e inner t o h) ≡ replaced t (some (stilled o)) (f (slots h))
unfolding stop_output
stop_output-slots e t o h f inner i c =
    stop_echo-slots t half (inner g) (
      get_output-slots t (inner g)
      ∙ ap (slot t) inner_slots
      ∙ slot-replaced t (some half) (f (slots h)))
    ∙ slots-put_output t (some (stilled o)) (inner g)
    ∙ ap (replaced t (some (stilled o))) inner_slots
    ∙ replaced-replaced t (some (stilled o)) (some half) (f (slots h))
  where
    g : Hal
    g = stage_off_if_idle e (close_output t o h)

    half : StreamOut
    half = record o { standby = true; normal = none; spdif = none; hdmi = none }

    inner_slots : slots (inner g) ≡ replaced t (some half) (f (slots h))
    inner_slots =
        i g
        ∙ ap f (
            stage_off_if_idle-slots e (close_output t o h)
            ∙ close_output-slots t o h
            ∙ slots-put_output t (some half) h)
        ∙ c (some half) (slots h)

output_standby-slots :
    (e : Env) (t : OutputType) (h : Hal) (f : Slots → Slots) (inner : Hal → Hal)
    → ((k : Hal) → slots (inner k) ≡ f (slots k))
    → ((p : Option StreamOut) (s : Slots) → f (replaced t p s) ≡ replaced t p (f s))
    → slots (output_standby e inner t h) ≡ (
        if is_running (get_output t h)
        then replaced t (stopped (get_output t h)) (f (slots h))
        else slots h)
output_standby-slots e t h f inner i c = at (get_output t h) refl
  where
    at :
        (s : Option StreamOut)
        → get_output t h ≡ s
        → slots (elim s [ none ↦ h | some o ↦ if o.standby then h else stop_output e inner t o h ])
          ≡ (if is_running s then replaced t (stopped s) (f (slots h)) else slots h)
    at none g = refl
    at (some o) g = elim (Bool-cases o.standby) [
      | inl s ↦ simp s refl
      | inr s ↦ simp s (stop_output-slots e t o h f inner i c)
    ]

-- The streams after do_output_standby: that of the HDMI output also stops the low latency one.
abbrev pub after : OutputType → Slots → Slots
after deep_buf s = (stopped s.0, s.1, s.2)
after low_latency s = (s.0, stopped s.1, s.2)
after hdmi s = (s.0, if is_running s.2 then stopped s.1 else s.1, stopped s.2)

stopped_idle : (s : Option StreamOut) → is_running s ≡ false → stopped s ≡ s
stopped_idle none h = refl
stopped_idle (some o) h = ground arith

-- A standby without an inner one.
after_alone :
    (t : OutputType) (s : Slots) (o : Option StreamOut)
    → slot t s ≡ o
    → replaced t o s ≡ s
    → (if is_running o then replaced t (stopped o) s else s) ≡ replaced t (stopped o) s
after_alone t s o g r = elim (Bool-cases (is_running o)) [
  | inl b ↦ rw b refl
  | inr b ↦ rw b (sym (ap (λ p. replaced t p s) (stopped_idle o b) ∙ r))
]

after_hdmi :
    (s : Slots)
    → (if is_running s.2 then replaced hdmi (stopped s.2) (after low_latency s) else s)
      ≡ after hdmi s
after_hdmi s = elim (Bool-cases (is_running s.2)) [
  | inl b ↦ rw b refl
  | inr b ↦ rw b (ap (λ p. (s.0, s.1, p)) (sym (stopped_idle s.2 b)))
]

low_latency-slots :
    (e : Env) (h : Hal)
    → slots (output_standby e (λ k. k) low_latency h) ≡ after low_latency (slots h)
low_latency-slots e h =
    output_standby-slots e low_latency h (λ s. s) (λ k. k) (λ k. refl) (λ p s. refl)
    ∙ after_alone low_latency (slots h) h.low_latency refl refl

pub do_output_standby-slots :
    (e : Env) (t : OutputType) (h : Hal) → slots (do_output_standby e t h) ≡ after t (slots h)
unfolding do_output_standby
do_output_standby-slots e deep_buf h =
    output_standby-slots e deep_buf h (λ s. s) (λ k. k) (λ k. refl) (λ p s. refl)
    ∙ after_alone deep_buf (slots h) h.deep_buf refl refl
do_output_standby-slots e low_latency h = low_latency-slots e h
do_output_standby-slots e hdmi h =
    output_standby-slots e hdmi h (after low_latency) (output_standby e (λ k. k) low_latency)
      (low_latency-slots e) (λ p s. refl)
    ∙ after_hdmi (slots h)

-- After do_output_standby on an output that runs, its stream is in standby without a PCM and without
-- an echo reference, and for the HDMI output so is the low latency stream; a stream in standby, and
-- the other outputs, are as they were. The mode, in_call, the modem's PCMs and the selected outputs do not
-- change. If the PCMs opened were as many as those closed, those that the modem and the outputs hold, and n
-- others, they still are.
pub do_output_standby_lem :
    (e : Env) (n : ℕ) (t : OutputType) (h : Hal)
    → IsBalanced n h
    → (slots (do_output_standby e t h) ≡ after t (slots h))
      × (call_state (do_output_standby e t h) ≡ call_state h)
      × IsBalanced n (do_output_standby e t h)
do_output_standby_lem e n t h b = (
  do_output_standby-slots e t h,
  do_output_standby-call_state e t h,
  do_output_standby-Balanced e n t h b,
)
