-- ===== src/Audio/Input.antt =====
-- audio/audio_hw.c: opening, starting and closing input streams, without the pre-processors.
-- The index of a stream stands for the address that calloc returns. create_resampler and
-- create_echo_reference give no object when they fail.
pub mod Closed
pub mod Microphone
use Prim.Native.Nat.{bit_or}
use android_device_samsung_t.Base.{
  ℕ, ◌+◌, Bool, true, false, not, ◌&&◌, ◌||◌, Option, none, some, is_some, ◌==◌, if◌then◌else◌, ◌▹◌,
  List, [], ◌∷◌, ◌++◌,
}
use android_device_samsung_t.Audio.Mixer.{Status, ok, einval, enomem}
use android_device_samsung_t.Audio.Device.{
  Hal, Env, InDevices, no_in_device, StreamIn, Call, other_source, pcm_in, pcm_opened, pcm_closed,
  echo_created, resampler_created, resampler_released, resampler_reset, emit, put_in, is_running,
  is_in_call, pcm_open, low_latency,
}
use android_device_samsung_t.Audio.Output.{select_input_device}
use android_device_samsung_t.Audio.Standby.{
  put_echo_reference, add_echo_reference, do_input_standby,
}
use android_device_samsung_t.Audio.Start.{pcm_config_mm_ul}
use android_device_samsung_t.Audio.Open.{AudioConfig, check_input_parameters, is_ok}

-- release_resampler, for a pointer that may be NULL.
abbrev pub release_resampler : Option ℕ → List Call
release_resampler none = []
release_resampler (some r) = resampler_released r ∷ []

module _ (e : Env) where
  -- create_resampler: the resampler, if there is one, and the HAL after the call.
  unfoldable pub create_resampler : Hal → Option ℕ × Hal
  create_resampler h =
      if e.resampler_created_ok h.next_handle
      then (
        some h.next_handle,
        emit (resampler_created h.next_handle ∷ []) (record h { next_handle = h.next_handle + 1 }),
      )
      else (none, h)

  -- create_echo_reference over the low latency output, which runs.
  unfoldable pub create_echo_reference : Hal → Hal
  unfolding add_echo_reference
  create_echo_reference h =
      if e.echo_created_ok h.next_handle
      then record (emit (echo_created h.next_handle ∷ []) h) {
        next_handle = h.next_handle + 1;
        echo_reference = some h.next_handle;
      }
        ▹ add_echo_reference (some h.next_handle)
      else h

  -- The reference that it returns is the one that the HAL then has.
  unfoldable pub get_echo_reference : Hal → Hal
  unfolding put_echo_reference create_echo_reference
  get_echo_reference h =
      put_echo_reference h.echo_reference h
      ▹ (λ (k : Hal). if is_running k.low_latency then create_echo_reference k else k)

  -- The new channel configuration of an input that starts.
  unfoldable pub update_channels : StreamIn × Hal → StreamIn × Hal
  unfolding create_resampler
  update_channels (s, h) =
      if not s.aux_channels_changed
      then (s, h)
      else (let channels = e.popcount (bit_or s.main_channels s.aux_channels) in
          let t = record s {
            aux_channels_changed = false;
            config = record (s.config) { channels = channels };
          } in
          if not (is_some s.resampler)
          then (t, h)
          else (let (r, k) = create_resampler (emit (release_resampler s.resampler) h) in
              (record t { resampler = r }, k)))

  unfoldable pub take_echo_reference : StreamIn × Hal → StreamIn × Hal
  unfolding get_echo_reference
  take_echo_reference (s, h) =
      if s.need_echo_reference && not (is_some s.echo_reference)
      then (
        record s { echo_reference = (get_echo_reference h).echo_reference },
        get_echo_reference h,
      )
      else (s, h)

  abbrev pub reset_resampler : Option ℕ → List Call
  reset_resampler none = []
  reset_resampler (some r) = resampler_reset r ∷ []

  -- The route of an input that has just become the active one.
  unfoldable pub input_path_on : StreamIn → Hal → Hal
  input_path_on s h =
      if is_in_call h.mode
      then h
      else record h { in_device = s.device } ▹ (λ (k : Hal). emit (select_input_device e k) k)

  -- The end of start_input_stream, from pcm_open on.
  unfoldable pub open_input_pcm : ℕ → StreamIn × Hal → Status × Hal
  open_input_pcm i (s, h) =
      let k = pcm_open 0 1 pcm_in s.config h in
      if e.pcm_is_ready h.next_handle
      then (
        ok,
        emit (reset_resampler s.resampler) (
            put_in i
              (record s {
                pcm = some h.next_handle;
                read_buf_frames = 0;
                read_buf_size = 0;
                proc_buf_frames = 0;
                proc_buf_size = 0;
              })
              k),
      )
      else (
        enomem,
        record (emit (pcm_closed (some h.next_handle) ∷ [])
            (put_in i (record s { pcm = some h.next_handle }) k)) { active_input = none },
      )

  unfoldable pub start_input_stream : ℕ → StreamIn → Hal → Status × Hal
  unfolding update_channels take_echo_reference open_input_pcm input_path_on
  start_input_stream i s h =
      (s, input_path_on s (record h { active_input = some i }))
      ▹ update_channels
      ▹ take_echo_reference
      ▹ open_input_pcm i

  -- The stream that calloc and the assignments after it make.
  abbrev pub fresh_input : InDevices → AudioConfig → Option ℕ → StreamIn
  fresh_input devices config r = record {
    config = record pcm_config_mm_ul { channels = e.popcount config.channel_mask };
    pcm = none;
    device = devices;
    resampler = r;
    requested_rate = config.sample_rate;
    standby = true;
    source = other_source 0;
    echo_reference = none;
    need_echo_reference = false;
    read_buf_size = 0;
    read_buf_frames = 0;
    proc_buf_size = 0;
    proc_buf_frames = 0;
    ref_buf_size = 0;
    ref_buf_frames = 0;
    aux_channels_changed = false;
    main_channels = config.channel_mask;
    aux_channels = 0;
  }

  -- From the test of the rate on.
  unfoldable pub open_input : ℕ → InDevices → AudioConfig → Hal → Status × Hal
  unfolding create_resampler
  open_input i devices config h =
      if config.sample_rate == pcm_config_mm_ul.rate
      then (ok, put_in i (fresh_input devices config none) h)
      else (let (r, k) = create_resampler h in
          if is_some r then (ok, put_in i (fresh_input devices config r) k) else (einval, k))

  unfoldable pub adev_open_input_stream : Bool → ℕ → InDevices → AudioConfig → Hal → Status × Hal
  unfolding open_input
  adev_open_input_stream allocated i devices config h =
      if not (
        is_ok (
          check_input_parameters config.sample_rate config.format (e.popcount config.channel_mask)))
      then (einval, h)
      else (if not allocated then (enomem, h) else open_input i devices config h)

  -- The stream's memory is free at the end.
  abbrev pub free_in : ℕ → Hal → Hal
  free_in i h = record h { ins = λ j. if i == j then none else h.ins j }

  abbrev pub free_stream : ℕ → Option StreamIn → Hal → Hal
  free_stream i none h = h
  free_stream i (some s) h = free_in i (emit (release_resampler s.resampler) h)

  unfoldable pub adev_close_input_stream : ℕ → Hal → Hal
  adev_close_input_stream i h = do_input_standby e i h ▹ (λ (k : Hal). free_stream i (k.ins i) k)
