-- ===== src/Lib.antt =====
-- A verification library for the PulseAudio plugin of the AudioReach platform audio layer (PAL), for
-- the card module, modules/pa-pal-plugins/module-pal-card (paths below are under it).
--
-- The plugin offers PAL's streams to PulseAudio. A card is described by a configuration file
-- (src/pal-config-parser.c). It has sinks (src/pal-sink.c), sources (src/pal-source.c), and
-- loopbacks, which are driven over D-Bus (src/pal-loopback.c): the hands-free call (src/hfp.c) and
-- the A2DP sink (src/bt-a2dp-split.c). They share the tables and conversions of src/pal-utils.c.
-- The jacks (src/pal-jack.c, src/pal-jack-external.c, src/pal-jack-hdmi-out.c, with
-- src/pal-format-detection.c) tell the card when a device comes and goes, and in which format it
-- plays.
--
-- Files and what they model:
--   Base       names shared by all, Boolean tests, C arrays and tables, C's signed integers.
--   Pal        PAL as a parameter: its data, its calls, the history of calls, and any function that
--              answers them. Pal/Live: the streams that a history holds open, and whether each call
--              on a stream was made while it was open.
--   Volume     pa_pal_set_volume, pa_pal_set_device_connection_state (src/pal-utils.c).
--   Channel    pa_pal_util_channel_map_init, pa_pal_channel_map_to_pal,
--              pa_pal_map_remove_invalid_channels (src/pal-utils.c).
--   Ports      the tables of ports, devices and jacks and their searches (src/pal-utils.c).
--   Formats    the PAL format of an encoding and the AAC metadata (src/pal-utils.c).
--   Loopback   the ports of a loopback, the record of a call, and the attributes and devices that
--              start_hfp gives its two streams.
--   Hfp        src/hfp.c: init_btsco, start_hfp, stop_hfp, deinit_btsco.
--   A2dp       src/bt-a2dp-split.c: init_btsink, start_btsink, stop_btsink, deinit_btsink, and the
--              branches of pa_pal_loopback_create, _set_volume and _destroy that call them.
--   BtSessions src/pal-loopback.c: pa_pal_bt_connect, pa_pal_bt_disconnect, disconnection_filter_cb,
--              which call Hfp and A2dp.
--   Sink       src/pal-sink.c: open_pal_sink, close_pal_sink, pa_pal_sink_start, _standby,
--              _set_state_in_io_thread_cb, _set_port_cb, _drain_cb, _flush_cb. Sink/Write:
--              write_chunk. Sink/Rates: the rates, formats and buffer sizes. Sink/Latency:
--              pa_pal_sink_get_latency. Sink/Restart: restart_pal_sink.
--              Sink/Reconfigure: pa_pal_sink_reconfigure_cb, pa_pal_sink_set_format_cb,
--              pa_pal_sink_fill_info, free_pal_sink. Sink/Volume: the volume callbacks of sink and
--              source.
--   Source     src/pal-source.c: open_pal_source, close_pal_source, pa_pal_source_start, _standby,
--              _set_state_in_io_thread_cb. Source/Ports: pa_pal_source_set_port_cb.
--              Source/Reconfigure: restart_pal_source, pa_pal_source_reconfigure_cb. Source/Fill:
--              pa_pal_source_fill_info. Source/Rates: the rates, formats, names and sizes.
--   Config     src/pal-config-parser.c: Config/Entry: the sections. Config/Formats, Config/Fields,
--              Config/Sections, Config/Names: the handlers of the lines. Config/Table: the table of
--              pa_pal_config_parse_new.
--   Detection  pa_pal_format_detection_config_to_jack_config (src/pal-format-detection.c).
--   HdmiOut    check_hdmi_out_connection and jack_io_callback (src/pal-jack-hdmi-out.c).
--   Jack       pa_pal_jack_register_event_callback, pa_pal_jack_deregister_event_callback
--              (src/pal-jack.c).
--   ExtJack    src/pal-jack-external.c: the handlers and pa_pal_external_jack_parse_kvpair.
--              ExtJack/Thread: jack_ext_async_thread_func and what it shares with the handlers.
--
-- Each function of the source is a function of the same name, less the prefixes pa_pal_ and
-- pa_pal_util_. State is a record that goes in and comes out; a return code is an integer. Calls of
-- PAL go through `Pal.call`, which asks the parameter for the answer and adds the call to the
-- history, so that an error of any call at any time is covered. What PulseAudio, libc and the
-- machine's floats do are parameters too.
--
-- Fuel: the loop of write_chunk runs on fuel and gives `none` where it runs out. One round is enough
-- for PCM; for a compressed stream one round more than the chunk has bytes, if every partial write
-- takes a byte. The scan of a kernel message runs on the length of the message, since each round
-- takes a byte at least. All other loops are structural.
--
-- A function of the source whose assertion can fail, or that can read through NULL, gives `none` there,
-- but in the sink a failed assertion on the handle is an entry of the history, which ends the function
-- and which no safe history has. The assertions on the userdata, which is set once, are left out.
-- Memory that is read after it was freed is a parameter.
--
-- Not modelled: the search for the configuration file, the card's own module, the remaining D-Bus
-- methods, and the clients under utils, each a part of its own; the threads' poll loops, the sockets
-- and the sysfs files, which are input and output; the C++ programs under utils.
pub mod Base
pub mod Config
pub mod Pal
pub mod Volume
pub mod Channel
pub mod Ports
pub mod Loopback
pub mod Hfp
pub mod A2dp
pub mod Sink
pub mod Source
pub mod Formats
pub mod Detection
pub mod HdmiOut
pub mod Jack
pub mod ExtJack
pub mod BtSessions
