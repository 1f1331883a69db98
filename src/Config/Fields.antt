-- ===== src/Config/Fields.antt =====
-- The handlers of pal-config-parser.c that set one field of a section.
use audioreach_pulseaudio_pl.Channel.{ChannelMap}
use audioreach_pulseaudio_pl.Source.Rates.{
  is_supported_source_encoding, is_supported_source_rate, source_type_from_string,
}
use audioreach_pulseaudio_pl.Pal.{StreamType}
use audioreach_pulseaudio_pl.Ports.{
  avoid_bit_width, avoid_channels, avoid_sample_rate, get_config_id_from_string,
}
use audioreach_pulseaudio_pl.Sink.Rates.{SampleFormat, get_type_from_string, supported_sink_rates}
use audioreach_pulseaudio_pl.Config.{ConfigData, Parser, Port, Usecase}
use audioreach_pulseaudio_pl.Formats.{Encoding, encoding_any, is_supported_encoding}
use audioreach_pulseaudio_pl.Config.Entry.{Edit, edit_usecase, edit_usecase_or_port}
use audioreach_pulseaudio_pl.Sink.Restart.{has_bit}
use audioreach_pulseaudio_pl.Base.{
  Bool, List, Option, String, [], false, get_or, if◌then◌else◌, mem, negsuc, none, not, pos, some,
  true, ℕ, ℤ, ◌+◌, ◌==◌, ◌∷◌,
}

-- Each word of `type` overwrites the stream type.
abbrev pub last_type : (String → StreamType) → List String → StreamType → StreamType
last_type type_of [] type = type
last_type type_of (item ∷ items) type = last_type type_of items (type_of item)

abbrev pub type_words : (String → StreamType) → Option (List String) → Edit Usecase
type_words type_of none u = (false, u)
type_words type_of (some items) u =
    (true, record u { stream_type = last_type type_of items u.stream_type })

unfoldable pub parse_type : Parser → String → String → ConfigData → Bool × ConfigData
parse_type p section rvalue c =
    edit_usecase p section (type_words get_type_from_string (p.split_spaces rvalue))
      (type_words source_type_from_string (p.split_spaces rvalue)) c

-- `flags | bit` for a bit, and for a set of the three bits.
abbrev pub with_bit : ℕ → ℕ → ℕ
with_bit bit flags = if has_bit flags bit then flags else flags + bit

abbrev pub or_config : ℕ → ℕ → ℕ
or_config flags word =
    let rate = if has_bit word avoid_sample_rate then with_bit avoid_sample_rate flags else flags in
    let width = if has_bit word avoid_bit_width then with_bit avoid_bit_width rate else rate in
    if has_bit word avoid_channels then with_bit avoid_channels width else width

unfoldable pub or_words : List String → ℕ → ℕ
or_words [] flags = flags
or_words (item ∷ items) flags = or_words items (or_config flags (get_config_id_from_string item))

abbrev pub add_avoided : List String → Edit Usecase
add_avoided items u =
    (true, record u { avoid_config_processing = or_words items u.avoid_config_processing })

abbrev pub avoid_words : Parser → String → Option (List String) → ConfigData → Bool × ConfigData
avoid_words p section none c = (false, c)
avoid_words p section (some items) c =
    edit_usecase p section (add_avoided items) (add_avoided items) c

unfoldable pub parse_avoid_processing : Parser → String → String → ConfigData → Bool × ConfigData
parse_avoid_processing p section rvalue c = avoid_words p section (p.split_spaces rvalue) c

abbrev pub set_default_encoding : (Encoding → Bool) → Encoding → Edit Usecase
set_default_encoding supported e u =
    if supported e then (true, record u { default_encoding = e }) else (false, u)

-- PA_ENCODING_ANY is 0.
abbrev pub is_any : Encoding → Bool
is_any encoding_any = true
is_any _ = false

unfoldable pub parse_default_encoding : Parser → String → String → ConfigData → Bool × ConfigData
parse_default_encoding p section rvalue c =
    let e = p.encoding_from_string rvalue in
    let edited =
      edit_usecase p section (set_default_encoding is_supported_encoding e)
        (set_default_encoding is_supported_source_encoding e) c in
    if is_any e then (false, c) else edited

-- The rate is stored before it is looked at; a text that is no number leaves the rate.
abbrev pub set_default_rate : (ℕ → Bool) → Option ℕ → Edit Usecase
set_default_rate supported read u =
    let rate = get_or read u.default_spec.rate in
    (supported rate, record u { default_spec = record (u.default_spec) { rate = rate } })

abbrev pub set_port_rate : Option ℕ → Edit Port
set_port_rate read u = (
  true,
  record u { default_spec = record (u.default_spec) { rate = get_or read u.default_spec.rate } },
)

unfoldable pub parse_default_sample_rate : Parser → String → String → ConfigData → Bool × ConfigData
parse_default_sample_rate p section rvalue c =
    edit_usecase_or_port p section
      (set_default_rate (λ r. mem r supported_sink_rates) (p.atou rvalue))
      (set_default_rate is_supported_source_rate (p.atou rvalue)) (set_port_rate (p.atou rvalue)) c

abbrev pub set_default_format : SampleFormat → Edit Usecase
set_default_format format u =
    (true, record u { default_spec = record (u.default_spec) { format = format } })

unfoldable pub parse_default_sample_format :
    Parser → String → String → ConfigData → Bool × ConfigData
parse_default_sample_format p section rvalue c =
    let edit = set_default_format (p.parse_sample_format rvalue) in
    edit_usecase p section edit edit c

abbrev pub set_default_map : ChannelMap → Edit Usecase
set_default_map map u = (
  true,
  record u {
    default_map = map;
    default_spec = record (u.default_spec) { channels = map.channels };
  },
)

abbrev pub set_port_map : ChannelMap → Edit Port
set_port_map map u = (
  true,
  record u {
    default_map = map;
    default_spec = record (u.default_spec) { channels = map.channels };
  },
)

abbrev pub default_map_read : Parser → String → Option ChannelMap → ConfigData → Bool × ConfigData
default_map_read p section none c = (false, c)
default_map_read p section (some map) c =
    edit_usecase_or_port p section (set_default_map map) (set_default_map map) (set_port_map map) c

unfoldable pub parse_default_channel_map : Parser → String → String → ConfigData → Bool × ConfigData
parse_default_channel_map p section rvalue c =
    default_map_read p section (p.channel_map_parse rvalue) c

abbrev pub set_buffer_size : Option ℕ → Edit Usecase
set_buffer_size read u = (true, record u { buffer_size = get_or read u.buffer_size })

unfoldable pub parse_default_buffer_size : Parser → String → String → ConfigData → Bool × ConfigData
parse_default_buffer_size p section rvalue c =
    edit_usecase p section (set_buffer_size (p.atou rvalue)) (set_buffer_size (p.atou rvalue)) c

abbrev pub set_buffer_count : Option ℕ → Edit Usecase
set_buffer_count read u = (true, record u { buffer_count = get_or read u.buffer_count })

unfoldable pub parse_default_buffer_count :
    Parser → String → String → ConfigData → Bool × ConfigData
parse_default_buffer_count p section rvalue c =
    edit_usecase p section (set_buffer_count (p.atou rvalue)) (set_buffer_count (p.atou rvalue)) c

abbrev pub set_alternate : Option ℕ → Edit Usecase
set_alternate read u =
    (true, record u { alternate_sample_rate = get_or read u.alternate_sample_rate })

unfoldable pub parse_alternative_sample_rate :
    Parser → String → String → ConfigData → Bool × ConfigData
parse_alternative_sample_rate p section rvalue c =
    edit_usecase p section (set_alternate (p.atou rvalue)) (set_alternate (p.atou rvalue)) c

-- The conversion to `bool` takes a negative number, a text that is no truth value, for true.
abbrev pub to_bool : ℤ → Bool
to_bool (pos n) = not (n == 0)
to_bool (negsuc n) = true

abbrev pub set_hw_volume : ℤ → Edit Usecase
set_hw_volume read u = (true, record u { use_hw_volume = to_bool read })

unfoldable pub parse_use_hw_volume : Parser → String → String → ConfigData → Bool × ConfigData
parse_use_hw_volume p section rvalue c =
    let edit = set_hw_volume (p.parse_boolean rvalue) in edit_usecase p section edit edit c
