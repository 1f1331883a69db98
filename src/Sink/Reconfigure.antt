-- ===== src/Sink/Reconfigure.antt =====
-- The callers of a sink's restart in pal-sink.c: `pa_pal_sink_reconfigure_cb` and
-- `pa_pal_sink_set_format_cb`; and `pa_pal_sink_fill_info` and `free_pal_sink`, the record's begin and
-- end.
--
-- What PulseAudio computes is the record `Pulse`, as for the sources. The thread of a compressed sink and
-- its resources are no part of the record.
use audioreach_pulseaudio_pl.Loopback.{zero_config}
use audioreach_pulseaudio_pl.Source.Fill.{SourceConfig, format_of_bits, no_info}
use audioreach_pulseaudio_pl.Sink.Restart.{has_bit, restart_pal_sink}
use audioreach_pulseaudio_pl.Ports.{avoid_bit_width, avoid_channels, avoid_sample_rate}
use audioreach_pulseaudio_pl.Source.Reconfigure.{CVolume, Pulse, avoids_any}
use audioreach_pulseaudio_pl.Sink.{
  PortDeviceData, Sink, SinkStates, close_pal_sink, custom_key_of, no_event,
}
use audioreach_pulseaudio_pl.Sink.Rates.{
  SampleFormat, SampleSpec, find_nearest_supported_pa_format, find_nearest_supported_sample_rate,
  get_buffer_size, supported_sink_rates,
}
use audioreach_pulseaudio_pl.Pal.{
  Handle, History, Pal, PalFormats, StreamType, audio_output, call, compressed_stream, no_loopback,
  stream_flush, stream_pause,
}
use audioreach_pulseaudio_pl.Channel.{ChannelMap, channel_map_to_pal, util_map}
use audioreach_pulseaudio_pl.Base.{
  Bool, Option, String, failed, false, get_or, if◌then◌else◌, is_negative, mem, none, not, pos,
  some, true, ℕ, ℤ, ◌*◌, ◌==◌, ◌||◌,
}
use audioreach_pulseaudio_pl.Formats.{Encoding, SndDec, encoding_pcm, set_pal_metadata}

-- The fields of `pa_sink` that the callbacks read and write.
pub record PaSink : Type 0 where
  pub state : ℕ
  pub thread_state : ℕ
  pub sample_spec : SampleSpec
  pub channel_map : ChannelMap
  pub reference_volume : CVolume
  pub max_request : ℕ
  pub fixed_latency : ℕ

abbrev pub requested_sink_spec : ℕ → PaSink → SampleSpec → SampleSpec
requested_sink_spec avoid ps spec = record {
  rate =
      if has_bit avoid avoid_sample_rate
      then find_nearest_supported_sample_rate spec.rate
      else spec.rate;
  channels = if has_bit avoid avoid_channels then spec.channels else ps.sample_spec.channels;
  format =
      if has_bit avoid avoid_bit_width
      then find_nearest_supported_pa_format spec.format
      else ps.sample_spec.format;
}

abbrev pub requested_sink_map : Pulse → ℕ → PaSink → SampleSpec → ChannelMap
requested_sink_map u avoid ps spec =
    if has_bit avoid avoid_channels then u.init_auto spec.channels else ps.channel_map

-- The sink with the rate and the volume of the request, before the restart.
abbrev pub prepared_sink : Pulse → ℕ → PaSink → SampleSpec → PaSink
prepared_sink u avoid ps spec =
    let v = u.rounded_max ps.reference_volume in
    let n = if has_bit avoid avoid_channels then spec.channels else ps.reference_volume.channels in
    record ps {
      sample_spec = record (ps.sample_spec) { rate = spec.rate };
      reference_volume = u.set_all n v (record (ps.reference_volume) { channels = n });
    }

abbrev pub prepared_pal_sink : Pulse → ℕ → SampleSpec → Sink → Sink
prepared_pal_sink u avoid spec s =
    let size = get_buffer_size u.sample_size u.frame_align spec s.stream_attributes.stream_type in
    if avoids_any avoid then record s { buffer_size = size } else s

abbrev pub Restart : Type 0
Restart = ℤ × Sink × Option SndDec × History

-- After the restart; `sink_latency_us` is the latency that `pa_pal_sink_fill_info` computed.
abbrev pub reconfigured_sink : ℕ → ℕ → SampleSpec → ChannelMap → PaSink → Restart → PaSink × Restart
reconfigured_sink sink_latency_us old_rate spec map ps (r, s, dec, t) =
    if failed r
    then (record ps { sample_spec = record (ps.sample_spec) { rate = old_rate } }, (r, s, dec, t))
    else (
      record ps {
        sample_spec = spec;
        channel_map = map;
        max_request = s.buffer_size;
        fixed_latency = sink_latency_us;
      },
      (r, s, dec, t),
    )

-- The code in the result is that of the restart, 0 where there was none.
unfoldable pub reconfigure_sink :
    Pal
    → SinkStates
    → PalFormats
    → Pulse
    → ℕ
    → ℕ
    → ℕ
    → SampleSpec
    → PaSink
    → Option SndDec
    → Sink
    → History
    → PaSink × Restart
reconfigure_sink p st formats u sink_latency_us metadata avoid spec ps dec s t =
    let tmp_spec = requested_sink_spec avoid ps spec in
    let new_map = requested_sink_map u avoid ps spec in
    let restarted =
      restart_pal_sink p st formats u.sample_size avoid metadata encoding_pcm tmp_spec new_map
        ps.thread_state dec (prepared_pal_sink u avoid tmp_spec s) t in
    if not (mem spec.rate supported_sink_rates)
    then (ps, (pos 0, s, dec, t))
    else if st.is_opened ps.state
    then (ps, (pos 0, s, dec, t))
    else reconfigured_sink sink_latency_us ps.sample_spec.rate tmp_spec new_map
        (prepared_sink u avoid ps spec) restarted

-- A negotiated format, by what PulseAudio reads from it; a code under 0 is a failure, and so is any but
-- 0 for the sample spec.
pub record NegotiatedFormat : Type 0 where
  pub is_compressed : Bool
  pub stream_format_rc : ℤ
  pub stream_format : String
  pub encoding : Encoding
  pub sample_spec_rc : ℤ
  pub rate_rc : ℤ
  pub channels : Option ℕ

-- The end of the callback for a format: the restart of the sink with the layout for the format's
-- channels, two where it names none, and with the specification that the sink has.
abbrev restart_with :
    Pal
    → SinkStates
    → PalFormats
    → (SampleFormat → ℕ)
    → ℕ
    → ℕ
    → PaSink
    → Encoding
    → ChannelMap
    → Option SndDec
    → Sink
    → History
    → Bool × Restart
restart_with p st formats sample_size avoid metadata ps encoding map dec s t =
    let (r, s', dec', t') =
      restart_pal_sink p st formats sample_size avoid metadata encoding ps.sample_spec map
        ps.thread_state dec s t in
    (not (failed r), (r, s', dec', t'))

-- The end of compressed playback: pause and flush.
abbrev end_playback : Pal → Handle → Sink → Option SndDec → History → Bool × Restart
end_playback p none s dec t = (true, (pos 0, s, dec, t))
end_playback p (some h) s dec t =
    let (r1, t1) = call p (stream_pause (some h)) t in
    let (r2, t2) = call p (stream_flush (some h)) t1 in
    (true, (pos 0, record s { close_output = true }, dec, t2))

-- With the layout for a number of channels, none where its assertion fails.
abbrev with_layout :
    ℕ → (ChannelMap → Bool × Restart) → Option ChannelMap → Option (ℕ × (Bool × Restart))
with_layout metadata restart none = none
with_layout metadata restart (some map) = some (metadata, restart map)

-- The result, the metadata, and what a restart left; none where an assertion fails.
unfoldable pub set_format :
    Pal
    → SinkStates
    → PalFormats
    → (SampleFormat → ℕ)
    → ChannelMap
    → ℕ
    → ℕ
    → PaSink
    → Option NegotiatedFormat
    → Option SndDec
    → Sink
    → History
    → Option (ℕ × (Bool × Restart))
set_format p st formats sample_size blank avoid metadata ps none dec s t =
    some (metadata, end_playback p s.stream_handle s dec t)
set_format p st formats sample_size blank avoid metadata ps (some f) dec s t =
    let (rc, metadata') =
      set_pal_metadata formats f.stream_format_rc f.stream_format f.encoding metadata in
    if not f.is_compressed
    then some (metadata, (false, (pos 0, s, dec, t)))
    else if is_negative rc
    then some (metadata', (false, (pos 0, s, dec, t)))
    else if failed f.sample_spec_rc
    then some (metadata', (false, (pos 0, s, dec, t)))
    else if is_negative f.rate_rc
    then some (metadata', (false, (pos 0, s, dec, t)))
    else with_layout metadata'
        (λ map. restart_with p st formats sample_size avoid metadata' ps f.encoding map dec s t)
        (util_map blank (get_or f.channels 2))

abbrev is_compressed_stream : StreamType → Bool
is_compressed_stream compressed_stream = true
is_compressed_stream _ = false

-- `pa_pal_sink_fill_info` with the format `encoding`; none where a channel map has no PAL equivalent.
-- The sink's flags and `opt_stream_info` are no part of the attributes here.
unfoldable pub fill_sink_info :
    Pal
    → PalFormats
    → (SampleFormat → ℕ)
    → SourceConfig
    → PortDeviceData
    → ℕ
    → ChannelMap
    → ℕ
    → Option Sink
fill_sink_info p formats sample_size sink port port_rate port_map encoding =
    let bits = sample_size sink.default_spec.format * 8 in
    let (mapped, info) = channel_map_to_pal sink.default_map no_info in
    let (port_mapped, port_info) = channel_map_to_pal port_map no_info in
    let s : Sink = record {
      stream_handle = none;
      stream_attributes = record {
        stream_type = sink.stream_type;
        loopback_type = no_loopback;
        direction = audio_output;
        in_media_config = zero_config;
        out_media_config = record {
          sample_rate = sink.default_spec.rate;
          bit_width = bits;
          aud_fmt_id = format_of_bits formats bits;
          ch_info = info;
        };
      };
      pal_device = record {
        id = port.device;
        config = record {
          sample_rate = port_rate;
          bit_width = 16;
          aud_fmt_id = 0;
          ch_info = port_info;
        };
        custom_key = custom_key_of p sink.pal_devicepp_config;
      };
      buffer_size = sink.buffer_size;
      buffer_count = sink.buffer_count;
      bytes_written = 0;
      sess_time = 0;
      standby = true;
      compressed = is_compressed_stream sink.stream_type || not (encoding == formats.pcm_s16_le);
      dynamic_usecase = sink.is_dynamic;
      restart_in_progress = false;
      close_output = false;
      sink_event_id = no_event;
      pal_sink_opened = false;
    } in
    if not mapped then none else if not port_mapped then none else some s

-- `free_pal_sink`: the stream of a sink in standby stays open.
unfoldable pub free_pal_sink : Pal → Sink → History → ℤ × History
free_pal_sink p s t =
    let (r, s', t') = close_pal_sink p s t in if s.standby then (pos 0, t) else (r, t')
