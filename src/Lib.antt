-- ===== src/Lib.antt =====
-- The audio, lights and sensors HALs of the Samsung Tuna device tree (Galaxy Nexus).
--
-- The device tree holds several small native modules. This library models two of them, the
-- primary audio HAL (audio/audio_hw.c with its tables in audio/audio_hw.h, and its RIL glue
-- audio/ril_interface.c) and the lights HAL (liblight/lights.c with
-- kernel-headers/linux/leds-an30259a.h), and the event reader of a third, the sensors HAL
-- (libsensors/InputEventReader.cpp, with readEvents of libsensors/SamsungSensorBase.cpp).
--
-- Lights. Light models liblight/lights.c: the table g_led_states as the record Leds, each set_light
-- handler as a function from it to a status, the new table and the calls to the kernel. The kernel's
-- answers are the record Kernel. Light.Priority has the specification of the virtual LEDs (the
-- latest request of each source, shown by the order attention, notification, battery) and
-- Light.Brightness the backlight's level. CHARGING_LED is on, as BoardConfig.mk has it.
--
-- Audio. The state of the HAL is the record Hal of Audio.Device (struct tuna_audio_device, the
-- global pcm_config_vx.rate, and volume_steps_max); an output stream lives in the slot of its type,
-- input streams in a store with numbers for pointers. What the HAL asks of tinyalsa, of the RIL
-- client library and of the echo references is a list of calls, kept in the order made (field
-- `log`). What the libraries answer is the parameter Env: the mixer, the RIL client, which PCM
-- handles are ready, the population count. The modules follow the source:
--   Audio.Mixer, Audio.Routes: the controls, set_route_by_array and the route arrays;
--   Audio.Ril: ril_interface.c, with the NULL guards of ril/libsecril-client/secril-client.cpp;
--   Audio.Gain: the conversions of decibels, set_input_volumes and set_output_volumes;
--   Audio.Output: set_eq_filter, set_incall_device, select_output_device, select_input_device;
--   Audio.Standby: echo references, do_output_standby, do_input_standby, force_all_standby;
--   Audio.Modem: start_call, end_call, audio_set_wb_amr_callback;
--   Audio.Mode: select_mode, adev_set_mode, adev_set_voice_volume, adev_set_mic_mute;
--   Audio.Start: the PCM configurations and start_output_stream_low_latency, _deep_buffer, _hdmi;
--   Audio.Open: buffer sizes, adev_open_output_stream, adev_close_output_stream;
--   Audio.Input: get_echo_reference, start_input_stream, opening and closing of input streams;
--   Audio.Params: out_set_parameters, adev_set_parameters;
--   Audio.Capture: get_next_buffer, release_buffer, read_frames, with the frames that are read;
--   Audio.Capture.Process: push_echo_reference, process_frames;
--   Audio.Capture.InRead: in_read;
--   Audio.Write: out_write_low_latency, out_write_deep_buffer, out_write_hdmi, latencies and delays;
--   Audio.Effects: in_add_audio_effect, in_remove_audio_effect, auxiliary channels, in_set_parameters;
--   Audio.Balance counts the PCMs opened and closed, Audio.Frames has what the entry points leave
--   alone, and Audio.Reach puts the entry points in sequence.
-- Where the frames of a stream matter, the PCMs, the resampler, the effects, the echo reference and
-- the clock are records of operations, which the definitions take as parameters, and what the code
-- relies on is a named hypothesis on them.
-- The proofs stand in child modules of these; Audio.Tests and Light.Tests hold concrete states and
-- runs.
--
-- Sensors. Sensors models the circular reader over a memory of cells, with pointers as indexes; what
-- readv gives is an argument. Sensors.Fifo has the list of events that a reader holds and
-- Sensors.Queue the queue that it implements. Sensors.Samsung models readEvents of
-- libsensors/SamsungSensorBase.cpp over it, with the virtual handleEvent as a parameter.
--
-- Bounds. Most loops are structural recursion over lists and counts. Four loops are recursion on fuel,
-- and theorems show that enough is given: read_frames has more fuel than frames to read,
-- process_frames more than the rounds that the effects can let pass without a frame, the wait of
-- out_write_deep_buffer more than the frames in the driver, and readEvents of the sensors more than
-- the events that arrive. Machine integers keep their wrap-around where the code stores one
-- (`% 2 ^ w`); gains and volumes are small integers ℤ. USE_HDMI_AUDIO is on and PLAYBACK_MMAP off, as
-- audio/Android.mk and audio_hw.h have them.
--
-- Not modelled: locks (an entry point is one step), logging, how the resampler computes, adev_open,
-- adev_close and out_get_parameters, the single sensors and their polling, the RIL client past its guards,
-- keymaster, recovery, GPS and RIL shims, NFC, Java services; libsensors/mlsdk and the MD5 of
-- ril/libsecril-compat are copies of other projects' code.
mod Base
pub mod Light
pub mod Audio
pub mod Sensors
