-- ===== src/Source/Reconfigure.antt =====
-- `restart_pal_source` and `pa_pal_source_reconfigure_cb` of pal-source.c: what a source's stream is opened with.
--
-- `pa_sample_size_of_format`, `pa_frame_align`, `pa_channel_map_init_auto`, the volumes and
-- `pa_bytes_to_usec` are PulseAudio's: the record `Pulse`.
use audioreach_pulseaudio_pl.Source.{Source, open_pal_source}
use audioreach_pulseaudio_pl.Source.Rates.{
  is_supported_source_rate, nearest_source_rate, source_check_supported_format,
  source_get_buffer_size,
}
use audioreach_pulseaudio_pl.Sink.Rates.{SampleFormat, SampleSpec, s24_32le, s24le, s32le}
use audioreach_pulseaudio_pl.Sink.Restart.{has_bit}
use audioreach_pulseaudio_pl.Sink.{SinkStates}
use audioreach_pulseaudio_pl.Formats.{Encoding, encoding_pcm, get_pal_format}
use audioreach_pulseaudio_pl.Ports.{avoid_bit_width, avoid_channels, avoid_sample_rate}
use audioreach_pulseaudio_pl.Channel.{ChannelMap, channel_map_to_pal}
use audioreach_pulseaudio_pl.Pal.{History, MediaConfig, Pal, PalFormats}
use audioreach_pulseaudio_pl.Base.{
  Bool, Option, failed, if◌then◌else◌, negsuc, none, not, some, ℕ, ℤ, ◌==◌, ◌||◌,
}

-- The switch on the sample format: the PAL format and the bits.
abbrev pub source_format : PalFormats → SampleFormat → ℕ × ℕ
source_format formats s32le = (formats.pcm_s32_le, 32)
source_format formats s24_32le = (formats.pcm_s24_le, 24)
source_format formats s24le = (formats.pcm_s24_3le, 24)
source_format formats _ = (formats.default_pcm, 16)

-- The media configuration but for the channels.
abbrev pub source_media : PalFormats → Bool → SampleSpec → ℕ → MediaConfig → MediaConfig
source_media formats keeps_width ss pal_format m =
    let (format, bits) = source_format formats ss.format in
    if keeps_width
    then record m { aud_fmt_id = format; bit_width = bits; sample_rate = ss.rate }
    else record m { aud_fmt_id = pal_format; sample_rate = ss.rate }

abbrev pub with_in_media : MediaConfig → Source → Source
with_in_media m s = record s {
  stream_attributes = record (s.stream_attributes) { in_media_config = m };
}

-- `restart_pal_source` of a source in standby. One that is not in standby has no result: the code
-- passes `pal_sdata` to the close as if it were the outer structure.
unfoldable pub restart_pal_source :
    Pal
    → PalFormats
    → ℕ
    → ℕ
    → Encoding
    → SampleSpec
    → ChannelMap
    → Source
    → History
    → Option (ℤ × Source × History)
restart_pal_source p formats metadata avoid encoding ss map s t =
    let pal_format = (get_pal_format formats metadata encoding none).0 in
    let m =
      source_media formats (has_bit avoid avoid_bit_width) ss pal_format
        s.stream_attributes.in_media_config in
    let (mapped, info) = channel_map_to_pal map m.ch_info in
    let s1 = with_in_media (record m { ch_info = info }) s in
    if not s.standby
    then none
    else if pal_format == 0
    then some (negsuc 0, s, t)
    else if mapped
    then some (open_pal_source p s1 t)
    else some (negsuc 0, s1, t)

-- `pa_cvolume`
pub record CVolume : Type 0 where
  pub channels : ℕ
  pub values : ℕ → ℕ

-- The fields of `pa_source` that the callback reads and writes.
pub record PaSource : Type 0 where
  pub state : ℕ
  pub sample_spec : SampleSpec
  pub channel_map : ChannelMap
  pub reference_volume : CVolume
  pub fixed_latency : ℕ

-- What PulseAudio computes: the size of a sample, the frames that fit, the default map for a number
-- of channels, the rounded maximum of a volume, a volume that is set throughout, and a duration.
pub record Pulse : Type 0 where
  pub sample_size : SampleFormat → ℕ
  pub frame_align : ℕ → SampleSpec → ℕ
  pub init_auto : ℕ → ChannelMap
  pub rounded_max : CVolume → ℕ
  pub set_all : ℕ → ℕ → CVolume → CVolume
  pub bytes_to_usec : ℕ → SampleSpec → ℕ

-- The specification and the map that the restart is given.
abbrev pub requested_spec : ℕ → PaSource → SampleSpec → SampleSpec
requested_spec avoid ps spec = record {
  rate = if has_bit avoid avoid_sample_rate then nearest_source_rate spec.rate else spec.rate;
  channels = if has_bit avoid avoid_channels then spec.channels else ps.sample_spec.channels;
  format = spec.format;
}

abbrev pub requested_map : Pulse → ℕ → PaSource → SampleSpec → ChannelMap
requested_map u avoid ps spec =
    if has_bit avoid avoid_channels then u.init_auto spec.channels else ps.channel_map

-- The source with the rate, the format and the volume of the request, before the restart.
abbrev pub prepared_source : Pulse → ℕ → PaSource → SampleSpec → PaSource
prepared_source u avoid ps spec =
    let v = u.rounded_max ps.reference_volume in
    let n = if has_bit avoid avoid_channels then spec.channels else ps.reference_volume.channels in
    record ps {
      sample_spec = record (ps.sample_spec) { rate = spec.rate; format = spec.format };
      reference_volume = u.set_all n v (record (ps.reference_volume) { channels = n });
    }

-- `avoid & PA_PAL_CARD_AVOID_PROCESSING_FOR_ALL`: any of the three bits.
abbrev pub avoids_any : ℕ → Bool
avoids_any avoid =
    has_bit avoid avoid_sample_rate
    || (has_bit avoid avoid_bit_width || has_bit avoid avoid_channels)

abbrev pub prepared_pal : Pulse → ℕ → SampleSpec → Source → Source
prepared_pal u avoid spec s =
    let size =
      source_get_buffer_size u.sample_size u.frame_align spec s.stream_attributes.stream_type in
    if avoids_any avoid then record s { buffer_size = size } else s

-- After the restart: the rate goes back where it failed, and the new specification is kept where it
-- did not.
abbrev pub reconfigured :
    Pulse
    → ℕ
    → SampleSpec
    → ChannelMap
    → PaSource
    → Option (ℤ × Source × History)
    → Option (PaSource × Source × History)
reconfigured u old_rate spec map ps none = none
reconfigured u old_rate spec map ps (some (r, s, t)) =
    if failed r
    then some (record ps { sample_spec = record (ps.sample_spec) { rate = old_rate } }, s, t)
    else some (
      record ps {
        sample_spec = spec;
        channel_map = map;
        fixed_latency = u.bytes_to_usec s.buffer_size spec;
      },
      s,
      t,
    )

unfoldable pub reconfigure :
    Pal
    → SinkStates
    → PalFormats
    → Pulse
    → ℕ
    → ℕ
    → SampleSpec
    → PaSource
    → Source
    → History
    → Option (PaSource × Source × History)
reconfigure p st formats u metadata avoid spec ps s t =
    let tmp_spec = requested_spec avoid ps spec in
    let new_map = requested_map u avoid ps spec in
    let restarted =
      restart_pal_source p formats metadata avoid encoding_pcm tmp_spec new_map
        (prepared_pal u avoid tmp_spec s) t in
    if not (is_supported_source_rate spec.rate)
    then some (ps, s, t)
    else if not (source_check_supported_format spec.format)
    then some (ps, s, t)
    else if st.is_opened ps.state
    then some (ps, s, t)
    else reconfigured u ps.sample_spec.rate tmp_spec new_map (prepared_source u avoid ps spec)
        restarted
