-- ===== src/Audio/Write.antt =====
-- audio/audio_hw.c: writing to the output streams. PLAYBACK_MMAP is not defined, so PCM_WRITE is
-- pcm_write. Every out_write function returns `bytes`. The output of the type exists, with the stream o in
-- its slot. Where no PCM is open out_write_low_latency takes its status from an uninitialised variable,
-- which is 0 here, and get_playback_delay reads past the array, which gives NULL here.
pub mod Wait
pub mod Restart
pub mod Line
pub mod Order
use android_device_samsung_t.Base.{
  ℕ, zero, suc, ◌+◌, ◌-◌, ◌*◌, ◌/◌, ◌%◌, ◌^◌, Bool, true, false, not, ◌&&◌, List, [], ◌∷◌, Option,
  none, some, is_some, is_zero, ltb, if◌then◌else◌, replicate, length, take, ◌▹◌,
}
use android_device_samsung_t.Audio.Mixer.{Status}
use android_device_samsung_t.Audio.Device.{
  Hal, Env, StreamOut, OutputType, deep_buf, low_latency, hdmi, get_output, put_output, emit,
  active_stream, is_voice_communication, pcm_avail_min_set,
}
use android_device_samsung_t.Audio.Standby.{do_output_standby, do_input_standby}
use android_device_samsung_t.Audio.Open.{is_ok}
use android_device_samsung_t.Audio.Start.{
  start_output_stream_low_latency, start_output_stream_deep_buffer, start_output_stream_hdmi,
  use_periods, short_period_size, deep_buffer_long_period_size,
}

-- What the outputs write to: the PCMs and the echo references, by their handles, and the clock. A sound
-- is a list of bytes; an errno is a positive number, 0 is success.
pub record Player (D : Type 0) : Type 0 where
  -- pcm_get_htimestamp: the available frames, the seconds and the nanoseconds.
  pub htimestamp : Option ℕ → D → Option (ℕ × ℕ × ℕ)
  pub buffer_size : Option ℕ → D → ℕ
  pub pcm_write : Option ℕ → List ℕ → D → ℕ × D
  pub pcm_mmap_write : Option ℕ → List ℕ → D → ℕ × D
  -- echo_reference->write, with the time stamp and the delay.
  pub echo_write : ℕ → List ℕ → ℕ × ℕ → ℕ → D → D
  pub usleep : ℕ → D → D

abbrev pub min_write_sleep_us : ℕ
min_write_sleep_us = 5000

-- audio_stream_out_frame_size of 16-bit samples in two channels: out_get_channels gives the stream's.
abbrev pub frame_size : Env → StreamOut → ℕ
frame_size e o = e.popcount o.channel_mask * 2

-- The pause after an error, with a 32-bit product.
abbrev pub pause : ℕ → ℕ → ℕ → ℕ
pause bytes size rate = bytes * 1000000 % 2 ^ 32 / size / rate

abbrev pub out_get_latency_low_latency : StreamOut → ℕ
out_get_latency_low_latency o = short_period_size * 2 * 1000 / o.sample_rate

abbrev pub out_get_latency_deep_buffer : StreamOut → ℕ
out_get_latency_deep_buffer o = deep_buffer_long_period_size * 2 * 1000 / o.sample_rate

abbrev pub out_get_latency_hdmi : StreamOut → ℕ
out_get_latency_hdmi o = 1024 * 4 * 1000 / (o.config_hdmi).rate

-- `left_is_zero` is left == 0.0f.
abbrev pub out_set_volume_hdmi : Bool → StreamOut → StreamOut
out_set_volume_hdmi left_is_zero o = record o { muted = left_is_zero }

module _ (e : Env) where
  -- The start functions, by the type of the output.
  abbrev pub start_output : OutputType → StreamOut → Hal → Status × Hal
  start_output deep_buf o h = start_output_stream_deep_buffer e o h
  start_output low_latency o h = start_output_stream_low_latency e o h
  start_output hdmi o h = start_output_stream_hdmi e o h

  -- out->standby = 0.
  abbrev pub leave_standby : OutputType → Hal → Option StreamOut → Hal
  leave_standby t h none = h
  leave_standby t h (some o) = put_output t (some (record o { standby = false })) h

  abbrev pub started : OutputType → Status × Hal → Bool × Hal
  started t (st, k) = if is_ok st then (true, leave_standby t k (get_output t k)) else (false, k)

  -- The beginning of a write: whether the output runs.
  unfoldable pub wake : OutputType → StreamOut → Hal → Bool × Hal
  wake t o h = if o.standby then started t (start_output t o h) else (true, h)

  abbrev pub active_source_is_voice : Hal → Bool
  active_source_is_voice h = elim (active_stream h) [
    | none ↦ false
    | some s ↦ is_voice_communication s.source
  ]

  -- "a change in output device may change the microphone selection": the active input goes to standby.
  unfoldable pub force_input_standby : Hal → Hal
  force_input_standby h = elim h.active_input [ none ↦ h | some i ↦ do_input_standby e i h ]

  abbrev pub put_deep_buffer : StreamOut × Hal → Hal
  put_deep_buffer (o, h) = put_output deep_buf (some o) h

  -- The periods wanted, long or short, against those in use.
  abbrev pub switch_to : Bool → Bool → StreamOut → Hal → Hal
  switch_to true true o h = h
  switch_to true false o h = put_deep_buffer (use_periods e true o.normal (o, h))
  switch_to false true o h = put_deep_buffer (use_periods e false o.normal (o, h))
  switch_to false false o h = h

  unfoldable pub switch_periods : StreamOut → Hal → Hal
  switch_periods o h =
      switch_to (h.screen_off && not (is_some h.active_input)) o.use_long_periods o h

  abbrev pub put_count : ℕ → StreamOut → Hal → Hal
  put_count n o h = put_output hdmi (some (record o { restart_periods_cnt = n })) h

  -- The workaround of HDMI: (cnt > 0) && (--cnt == 0) puts the output in standby.
  abbrev pub count_down : ℕ → StreamOut → Hal → Hal
  count_down zero o h = h
  count_down (suc zero) o h = do_output_standby e hdmi (put_count 0 o h)
  count_down (suc (suc n)) o h = put_count (suc n) o h

  unfoldable pub count_period : Hal → StreamOut → Hal
  count_period h o = count_down o.restart_periods_cnt o h

  abbrev pub counted : Hal → Option StreamOut → Hal
  counted k none = k
  counted k (some o) = count_period k o

  abbrev pub switched : Hal → Option StreamOut → Hal
  switched k none = k
  switched k (some o) = switch_periods o k

  -- What a write leaves of the HAL, for each type of output.
  abbrev pub forced : StreamOut → Bool × Hal → Hal
  forced o (ready, k) =
      if ready && (o.standby && active_source_is_voice k) then force_input_standby k else k

  unfoldable pub low_latency_written : StreamOut → Hal → Hal
  low_latency_written o h = forced o (wake low_latency o h)

  abbrev pub switched_if : Bool × Hal → Hal
  switched_if (ready, k) = if ready then switched k k.deep_buf else k

  unfoldable pub deep_buffer_written : StreamOut → Hal → Hal
  deep_buffer_written o h = switched_if (wake deep_buf o h)

  unfoldable pub hdmi_written : StreamOut → Hal → Hal
  hdmi_written o h = counted (wake hdmi o h).1 (wake hdmi o h).1.hdmi

module _ {D : Type 0} (e : Env) (v : Player D) where
  -- out->pcm[0], the first of the active PCMs; NULL if there is none.
  abbrev pub primary_pcm : StreamOut → Option ℕ
  primary_pcm o =
      if is_some o.normal then o.normal else (if is_some o.spdif then o.spdif else o.hdmi)

  abbrev pub delay_of : StreamOut → ℕ → D → Option (ℕ × ℕ × ℕ) → (ℕ × ℕ) × ℕ
  delay_of o frames d none = ((0, 0), 0)
  delay_of o frames d (some (avail, seconds, nanos)) = (
    (seconds, nanos),
    ((v.buffer_size (primary_pcm o) d + 2 ^ 32 - avail + frames)
          % 2 ^ 32
          * 1000000000
          / o.sample_rate)
        % 2 ^ 32,
  )

  unfoldable pub get_playback_delay : StreamOut → ℕ → D → (ℕ × ℕ) × ℕ
  get_playback_delay o frames d = delay_of o frames d (v.htimestamp (primary_pcm o) d)

  -- The sound for the echo canceller.
  abbrev pub write_reference : StreamOut → List ℕ → Option ℕ → D → D
  write_reference o sound none d = d
  write_reference o sound (some r) d =
      let (stamp, delay) = get_playback_delay o (length sound / frame_size e o) d in
      v.echo_write r sound stamp delay d

  -- One PCM of the loop over them, up to the first error.
  abbrev pub write_pcm : List ℕ → Option ℕ → ℕ × D → ℕ × D
  write_pcm sound p (suc n, d) = (suc n, d)
  write_pcm sound none (zero, d) = (zero, d)
  write_pcm sound (some p) (zero, d) = v.pcm_write (some p) sound d

  unfoldable pub write_all : StreamOut → List ℕ → D → ℕ × D
  write_all o sound d =
      (zero, d) ▹ write_pcm sound o.normal ▹ write_pcm sound o.spdif ▹ write_pcm sound o.hdmi

  abbrev pub rest_after : ℕ → StreamOut → ℕ → ℕ × D → D
  rest_after rate o bytes (zero, d) = d
  rest_after rate o bytes (suc n, d) = v.usleep (pause bytes (frame_size e o) rate) d

  -- The loop that waits until the driver holds at most write_threshold frames; `none` is out of fuel.
  abbrev pub sleep_time : ℕ → StreamOut → ℕ
  sleep_time queued o =
      let time = (queued - o.write_threshold) * 1000000 / o.sample_rate in
      if ltb time min_write_sleep_us then min_write_sleep_us else time

  -- What the driver holds: buffer size less available frames, or no time stamp.
  abbrev pub held_frames : ℕ → Option (ℕ × ℕ × ℕ) → Option ℕ
  held_frames size none = none
  held_frames size (some (avail, seconds, nanos)) = some (size - avail)

  unfoldable pub kernel_frames : StreamOut → D → Option ℕ
  kernel_frames o d = held_frames (v.buffer_size o.normal d) (v.htimestamp o.normal d)

  -- The end of a round: whether another one follows.
  abbrev pub waited : StreamOut → D → (ℕ → Option D) → Option ℕ → Option D
  waited o d rest none = some d
  waited o d rest (some queued) = if ltb o.write_threshold queued then rest queued else some d

  unfoldable pub wait_loop : ℕ → StreamOut → D → Option D
  wait_loop zero o d = none
  wait_loop (suc fuel) o d =
      waited o d (λ queued. wait_loop fuel o (v.usleep (sleep_time queued o) d)) (kernel_frames o d)

  -- The sound goes to the PCMs of the output, as they are after its start.
  abbrev pub play_low_latency : List ℕ → Option StreamOut → D → D
  play_low_latency sound none d = d
  play_low_latency sound (some o) d =
      rest_after o.sample_rate o (length sound)
        (write_all o sound (write_reference o sound o.echo_reference d))

  abbrev pub pause_after_start : ℕ → StreamOut → List ℕ → D → D
  pause_after_start rate o sound d = v.usleep (pause (length sound) (frame_size e o) rate) d

  unfoldable pub out_write_low_latency : StreamOut → List ℕ → Hal → D → Hal × D
  unfolding write_all
  out_write_low_latency o sound h d =
      let (ready, k) = wake e low_latency o h in
      (
        low_latency_written e o h,
        if not ready
            then pause_after_start o.sample_rate o sound d
            else play_low_latency sound k.low_latency d,
      )

  -- pcm_mmap_write after the wait.
  abbrev pub played : List ℕ → Hal → StreamOut → Option D → Option (Hal × D)
  played sound k o none = none
  played sound k o (some d) =
      some (k, rest_after o.sample_rate o (length sound) (v.pcm_mmap_write o.normal sound d))

  abbrev pub play_deep_buffer : ℕ → List ℕ → Hal → Option StreamOut → D → Option (Hal × D)
  play_deep_buffer fuel sound k none d = some (k, d)
  play_deep_buffer fuel sound k (some o) d = played sound k o (wait_loop fuel o d)

  unfoldable pub out_write_deep_buffer : ℕ → StreamOut → List ℕ → Hal → D → Option (Hal × D)
  unfolding wait_loop
  out_write_deep_buffer fuel o sound h d =
      let (ready, k) = wake e deep_buf o h in
      let l = deep_buffer_written e o h in
      if not ready
      then some (l, pause_after_start o.sample_rate o sound d)
      else play_deep_buffer fuel sound l l.deep_buf d

  abbrev pub silenced : Bool → List ℕ → List ℕ
  silenced muted sound = if muted then replicate (length sound) 0 else sound

  -- pcm_write takes whole frames.
  abbrev pub whole_frames : StreamOut → List ℕ → List ℕ
  whole_frames o sound = take (length sound / frame_size e o * frame_size e o) sound

  abbrev pub play_hdmi : List ℕ → Option StreamOut → D → D
  play_hdmi sound none d = d
  play_hdmi sound (some o) d =
      rest_after (o.config_hdmi).rate o (length sound)
        (v.pcm_write o.hdmi (whole_frames o (silenced o.muted sound)) d)

  unfoldable pub out_write_hdmi : StreamOut → List ℕ → Hal → D → Hal × D
  out_write_hdmi o sound h d =
      let (ready, k) = wake e hdmi o h in
      (
        hdmi_written e o h,
        if not ready
            then pause_after_start (o.config_hdmi).rate o sound d
            else play_hdmi sound k.hdmi d,
      )
