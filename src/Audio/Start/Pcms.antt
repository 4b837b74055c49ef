-- ===== src/Audio/Start/Pcms.antt =====
-- The PCMs that the start of the low latency output of audio/audio_hw.c leaves open.
use android_device_samsung_t.Base.{
  ℕ, ◌+◌, ◌≡◌, refl, ap, Bool, true, none, some, arith, Bool-cases, if◌then◌else◌, inl, inr,
  is_some, ◌∙◌, sym,
}
use android_device_samsung_t.Audio.Mixer.{ok, enomem}
use android_device_samsung_t.Audio.Device.{
  Hal, Env, StreamOut, low_latency, pcm_normal, pcm_spdif, pcm_hdmi, put_output, emit, is_in_call,
}
use android_device_samsung_t.Audio.Balance.{IsBalanced, held, holds, held_output}
use android_device_samsung_t.Audio.Output.{select_output_device}
use android_device_samsung_t.Audio.Output.NoPcm.{NoPcm, select_output_device-NoPcm}
use android_device_samsung_t.Audio.Start.{
  open_tones, close_unready, start_output_stream_low_latency, select_if_idle,
}
use android_device_samsung_t.Audio.Start.Accounts.{
  Accounted, Accounted-step, Frame, frame, Held, open_tones-Held, close_unready-Held,
}
use android_device_samsung_t.Audio.Start.Ready.{
  all_ready, pcms, ready_pcms, closed_all, closed_all-ready, open_tones-standby,
}

-- What the modem and the other outputs hold, for the low latency output.
abbrev pub others : Frame → ℕ
others f = holds f.0 + (holds f.1 + (held_output f.2 + held_output f.4))

-- The stream goes back to its slot.
put_low_latency-Balanced :
    (n : ℕ) (f : Frame) (o : StreamOut) (h : Hal)
    → Held (others f + n) f (o, h)
    → IsBalanced n (put_output low_latency (some o) h)
unfolding held
put_low_latency-Balanced n f o h a = omega (arith, a.0, ap others a.1)

-- The state at the start, the stream taken out of its slot.
unplugged :
    (n : ℕ) (o : StreamOut) (h : Hal)
    → h.low_latency ≡ some o
    → IsBalanced n h
    → Accounted (others (frame h) + n) (o, h)
unfolding held
unplugged n o h g b = omega (arith, ap held_output g)

selected-Accounted :
    (e : Env) (n : ℕ) (o : StreamOut) (h : Hal)
    → Accounted n (o, h)
    → Accounted n (o, emit (select_output_device e h) h)
unfolding NoPcm
selected-Accounted e n o h a =
    Accounted-step n o o h (emit (select_output_device e h) h) (select_output_device e h) refl
      (ground (arith, select_output_device-NoPcm e h)) a

select_if_idle-Held :
    (e : Env) (n : ℕ) (f : Frame) (o : StreamOut) (h : Hal)
    → Held n f (o, h)
    → Held n f (o, select_if_idle e h)
select_if_idle-Held e n f o h a = elim (Bool-cases (is_in_call h.mode)) [
  | inl c ↦ simp c a
  | inr c ↦ simp c (selected-Accounted e n o h a.0, a.1)
]

-- The stream is in its slot after a start.
pub start_some :
    (e : Env) (o : StreamOut) (h : Hal)
    → is_some (start_output_stream_low_latency e o h).1.low_latency ≡ true
unfolding start_output_stream_low_latency closed_all
start_some e o h = elim (Bool-cases (closed_all e (open_tones (o, select_if_idle e h))).0) [
  | inl s ↦ simp s refl
  | inr s ↦ simp s refl
]

-- The low latency output starts with no PCM of its own. It returns 0 if all of the PCMs that open_tones
-- opens are ready and -ENOMEM otherwise. Those that are not ready are closed and forgotten; the stream
-- has the others, and its standby is as before, also where the start fails. If the PCMs opened were as
-- many as those closed, those that the modem and the outputs hold, and n others, they still are.
pub start_output_stream_low_latency-Balanced :
    (e : Env) (n : ℕ) (o : StreamOut) (h : Hal)
    → h.low_latency ≡ some o
    → (o.normal ≡ none) × (o.spdif ≡ none) × (o.hdmi ≡ none)
    → IsBalanced n h
    → let (st, k) = start_output_stream_low_latency e o h in
      let opened = (open_tones (o, select_if_idle e h)).0 in
      IsBalanced n k
      × (st ≡ (if all_ready e opened then ok else enomem))
      × ((p : StreamOut) × (k.low_latency ≡ some p)
          × (pcms p ≡ ready_pcms e opened)
          × (p.standby ≡ o.standby))
unfolding start_output_stream_low_latency closed_all
start_output_stream_low_latency-Balanced e n o h g p b = elim (Bool-cases closed.0) [
  | inl s ↦ simp s (
    put_low_latency-Balanced n f
        (record (closed.1) {
          echo_reference =
              if is_some closed.2.echo_reference
              then closed.2.echo_reference
              else closed.1.echo_reference;
        })
        closed.2 closed-Held,
    status (sym s),
    (_, refl, left.1, left.2 ∙ open_tones-standby (o, select_if_idle e h)),
  )
  | inr s ↦ simp s (
    put_low_latency-Balanced n f closed.1 closed.2 closed-Held,
    status (sym s),
    (_, refl, left.1, left.2 ∙ open_tones-standby (o, select_if_idle e h)),
  )
]
  where
    f : Frame
    f = frame h

    opened : StreamOut × Hal
    opened = open_tones (o, select_if_idle e h)

    opened-Held : Held (others f + n) f opened
    opened-Held =
        open_tones-Held (others f + n) f (o, select_if_idle e h)
          (select_if_idle-Held e (others f + n) f o h (unplugged n o h g b, refl), p.0, p.1, p.2)

    closed : Bool × StreamOut × Hal
    closed =
        close_unready e pcm_hdmi
          (close_unready e pcm_spdif (close_unready e pcm_normal (true, opened.0, opened.1)))

    closed-Held : Held (others f + n) f (closed.1, closed.2)
    closed-Held =
        close_unready-Held e (others f + n) f pcm_hdmi
          (close_unready e pcm_spdif (close_unready e pcm_normal (true, opened.0, opened.1)))
          (close_unready-Held e (others f + n) f pcm_spdif
            (close_unready e pcm_normal (true, opened.0, opened.1))
            (close_unready-Held e (others f + n) f pcm_normal (true, opened.0, opened.1)
              opened-Held))

    left :
        (closed.0 ≡ all_ready e opened.0)
        × (pcms closed.1 ≡ ready_pcms e opened.0)
        × (closed.1.standby ≡ opened.0.standby)
    left = closed_all-ready e opened.0 opened.1

    status :
        {c : Bool}
        → c ≡ closed.0
        → (if c then ok else enomem) ≡ (if all_ready e opened.0 then ok else enomem)
    status q = ap (λ (c : Bool). if c then ok else enomem) (q ∙ left.0)
