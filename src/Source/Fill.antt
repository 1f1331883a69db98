-- ===== src/Source/Fill.antt =====
-- `pa_pal_source_fill_info` and `free_pal_source` of pal-source.c: the record of a new source.
use audioreach_pulseaudio_pl.Source.Lifecycle.{IsValidData}
use mathlib.Core.Path.{subst}
use audioreach_pulseaudio_pl.Source.{Source, present}
use audioreach_pulseaudio_pl.Sink.Rates.{SampleFormat, SampleSpec}
use audioreach_pulseaudio_pl.Sink.{PortDeviceData, no_event}
use audioreach_pulseaudio_pl.Channel.{ChannelMap, channel_map_to_pal}
use audioreach_pulseaudio_pl.Loopback.{zero_config}
use audioreach_pulseaudio_pl.Pal.{
  ChInfo, History, Pal, PalFormats, StreamType, audio_input, no_loopback,
}
use audioreach_pulseaudio_pl.Base.{
  Bool, Option, String, false, if◌then◌else◌, none, not, pos, some, true, ℕ, ℤ, ◌*◌, ◌==◌, arith,
  ◌≡◌,
}

-- The fields of `pa_pal_source_config` that fill a source's record.
pub record SourceConfig : Type 0 where
  pub stream_type : StreamType
  pub default_spec : SampleSpec
  pub default_map : ChannelMap
  pub is_dynamic : Bool
  pub pal_devicepp_config : Option String
  pub buffer_size : ℕ
  pub buffer_count : ℕ

-- The switch on the bits: the PAL format.
abbrev pub format_of_bits : PalFormats → ℕ → ℕ
format_of_bits formats bits =
    if bits == 32
    then formats.pcm_s32_le
    else if bits == 24
    then formats.pcm_s24_3le
    else formats.default_pcm

-- The port's key, else the source's, else the text that the zeroed memory spells.
abbrev pub device_key : Pal → Option String → Option String → String
device_key p (some key) other = p.key_in_array key
device_key p none (some key) = p.key_in_array key
device_key p none none = ""

abbrev pub no_info : ChInfo
no_info = zero_config.ch_info

-- The result is none where a channel map has no PAL equivalent (the code -1). `port_rate` and
-- `port_map` are the default of the port's data; `pa_sample_size_of_format` counts the bytes.
unfoldable pub fill_info :
    Pal
    → PalFormats
    → (SampleFormat → ℕ)
    → SourceConfig
    → PortDeviceData
    → ℕ
    → ChannelMap
    → Option Source
fill_info p formats sample_size source port port_rate port_map =
    let bits = sample_size source.default_spec.format * 8 in
    let (mapped, info) = channel_map_to_pal source.default_map no_info in
    let (port_mapped, port_info) = channel_map_to_pal port_map no_info in
    let s : Source = record {
      stream_handle = none;
      stream_attributes = record {
        stream_type = source.stream_type;
        loopback_type = no_loopback;
        direction = audio_input;
        in_media_config = record {
          sample_rate = source.default_spec.rate;
          bit_width = bits;
          aud_fmt_id = format_of_bits formats bits;
          ch_info = info;
        };
        out_media_config = zero_config;
      };
      pal_device = record {
        id = port.device;
        config = record {
          sample_rate = port_rate;
          bit_width = 16;
          aud_fmt_id = 0;
          ch_info = port_info;
        };
        custom_key = device_key p port.pal_devicepp_config source.pal_devicepp_config;
      };
      buffer_size = source.buffer_size;
      buffer_count = source.buffer_count;
      standby = true;
      dynamic_usecase = source.is_dynamic;
      source_event_id = no_event;
      pal_source_opened = false;
    } in
    if not mapped then none else if not port_mapped then none else some s

-- `free_pal_source` of a source in standby; of another it has no result, as the restart has none.
unfoldable pub free_pal_source : Source → Option ℤ
free_pal_source s = if s.standby then some (pos 0) else none

abbrev Fresh : Pal → History → Option Source → Type 0
Fresh p t none = Unit {0}
Fresh p t (some s) = IsValidData p (present s) t

fresh :
    (p : Pal) (formats : PalFormats) (sample_size : SampleFormat → ℕ) (source : SourceConfig)
    (port : PortDeviceData) (port_rate : ℕ) (port_map : ChannelMap) (t : History)
    → Fresh p t (fill_info p formats sample_size source port port_rate port_map)
unfolding fill_info
fresh p formats sample_size source port port_rate port_map t = ground arith

-- A new source is valid: it has no stream, and is in standby.
pub fill_info-IsValid :
    (p : Pal) (formats : PalFormats) (sample_size : SampleFormat → ℕ) (source : SourceConfig)
    (port : PortDeviceData) (port_rate : ℕ) (port_map : ChannelMap) (t : History) (s : Source)
    → fill_info p formats sample_size source port port_rate port_map ≡ some s
    → IsValidData p (present s) t
unfolding fill_info
fill_info-IsValid p formats sample_size source port port_rate port_map t s e =
    subst (Fresh p t) e (fresh p formats sample_size source port port_rate port_map t)
