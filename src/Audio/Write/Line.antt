-- ===== src/Audio/Write/Line.antt =====
-- The state of a call while the output streams of audio/audio_hw.c are written to.
use android_device_samsung_t.Base.{
  ℕ, zero, suc, ◌≡◌, refl, ap, ◌∙◌, Bool, true, false, not, ◌&&◌, Option, none, some, if_both,
  is_some,
}
use android_device_samsung_t.Audio.Mixer.{Status}
use android_device_samsung_t.Audio.Open.{is_ok}
use android_device_samsung_t.Audio.Device.{
  Hal, Env, StreamOut, OutputType, deep_buf, low_latency, hdmi, get_output,
}
use android_device_samsung_t.Audio.Standby.{do_input_standby}
use android_device_samsung_t.Audio.Standby.Frame.{
  do_output_standby-call_state, do_input_standby-call_state,
}
use android_device_samsung_t.Audio.Frames.{line, short}
use android_device_samsung_t.Audio.Frames.Streams.{low_latency-line, deep_buffer-line, hdmi-line}
use android_device_samsung_t.Audio.Write.{
  wake, started, leave_standby, start_output, force_input_standby, switch_to, switch_periods,
  switched, count_down, put_count, count_period, counted, active_source_is_voice,
  low_latency_written, deep_buffer_written, hdmi_written,
}

module _ (e : Env) where
  start-line : (t : OutputType) (o : StreamOut) (h : Hal) → line (start_output e t o h).1 ≡ line h
  start-line deep_buf o h = deep_buffer-line e o h
  start-line low_latency o h = low_latency-line e o h
  start-line hdmi o h = hdmi-line e o h

  leave-line :
      (t : OutputType) (k : Hal) (s : Option StreamOut) → line (leave_standby e t k s) ≡ line k
  leave-line t k none = refl
  leave-line deep_buf k (some o) = refl
  leave-line low_latency k (some o) = refl
  leave-line hdmi k (some o) = refl

  started-line : (t : OutputType) (st : Status) (k : Hal) → line (started e t (st, k)).1 ≡ line k
  started-line t st k =
      if_both (λ (r : Bool × Hal). line r.1 ≡ line k) (is_ok st) (leave-line t k (get_output t k))
        refl

  pub wake-line : (t : OutputType) (o : StreamOut) (h : Hal) → line (wake e t o h).1 ≡ line h
  unfolding wake
  wake-line t o h =
      if_both (λ (r : Bool × Hal). line r.1 ≡ line h) o.standby
        (started-line t (start_output e t o h).0 (start_output e t o h).1 ∙ start-line t o h) refl

  pub force_input_standby-line : (h : Hal) → line (force_input_standby e h) ≡ line h
  unfolding force_input_standby
  force_input_standby-line h = at h.active_input
    where
      at : (a : Option ℕ) → line (elim a [ none ↦ h | some i ↦ do_input_standby e i h ]) ≡ line h
      at none = refl
      at (some i) = ap short (do_input_standby-call_state e i h)

  switch_to-line :
      (long now : Bool) (o : StreamOut) (h : Hal) → line (switch_to e long now o h) ≡ line h
  switch_to-line true true o h = refl
  switch_to-line true false o h = refl
  switch_to-line false true o h = refl
  switch_to-line false false o h = refl

  pub switched-line : (h : Hal) (s : Option StreamOut) → line (switched e h s) ≡ line h
  unfolding switch_periods
  switched-line h none = refl
  switched-line h (some o) =
      switch_to-line (h.screen_off && not (is_some h.active_input)) o.use_long_periods o h

  count_down-line : (n : ℕ) (o : StreamOut) (h : Hal) → line (count_down e n o h) ≡ line h
  count_down-line zero o h = refl
  count_down-line (suc zero) o h =
      ap short (do_output_standby-call_state e hdmi (put_count e 0 o h))
  count_down-line (suc (suc n)) o h = refl

  pub counted-line : (h : Hal) (s : Option StreamOut) → line (counted e h s) ≡ line h
  unfolding count_period
  counted-line h none = refl
  counted-line h (some o) = count_down-line o.restart_periods_cnt o h

  pub low_latency_written-line :
      (o : StreamOut) (h : Hal) → line (low_latency_written e o h) ≡ line h
  unfolding low_latency_written
  low_latency_written-line o h =
      if_both (λ (k : Hal). line k ≡ line h)
        ((wake e low_latency o h).0
          && (o.standby && active_source_is_voice e (wake e low_latency o h).1))
        (force_input_standby-line (wake e low_latency o h).1 ∙ wake-line low_latency o h)
        (wake-line low_latency o h)

  pub deep_buffer_written-line :
      (o : StreamOut) (h : Hal) → line (deep_buffer_written e o h) ≡ line h
  unfolding deep_buffer_written
  deep_buffer_written-line o h =
      if_both (λ (k : Hal). line k ≡ line h) (wake e deep_buf o h).0
        (switched-line (wake e deep_buf o h).1 (wake e deep_buf o h).1.deep_buf
          ∙ wake-line deep_buf o h)
        (wake-line deep_buf o h)

  pub hdmi_written-line : (o : StreamOut) (h : Hal) → line (hdmi_written e o h) ≡ line h
  unfolding hdmi_written
  hdmi_written-line o h =
      counted-line (wake e hdmi o h).1 (wake e hdmi o h).1.hdmi ∙ wake-line hdmi o h
