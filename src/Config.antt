-- ===== src/Config.antt =====
-- modules/pa-pal-plugins/module-pal-card/src/pal-config-parser.c: the configuration of the card, read
-- line by line by PulseAudio's `pa_config_parse`, which calls the handler that the table names.
--
-- The data are those of inc/pal-config-parser.h and inc/pal-card.h; the structures of sinks and sources
-- have the same fields and are one record. A hash map is an association list in the order of
-- insertion, and a map from names to pointers at entries of another map is the list of the names. What
-- PulseAudio reads a text as, and the values of PAL and PulseAudio that zeroed memory spells, are the
-- record `Parser`.
pub mod Map
pub mod Entry
pub mod Formats
pub mod Fields
pub mod Sections
pub mod Names
pub mod Table
pub mod Invariant
pub mod Keeps
pub mod Chains
pub mod FormatsKeep
pub mod Handlers
pub mod SectionsKeep
pub mod NamesKeep
pub mod Lines
pub mod Answers
mod Tests
use audioreach_pulseaudio_pl.Formats.{Encoding, encoding_any}
use audioreach_pulseaudio_pl.Sink.Rates.{SampleFormat, SampleSpec, u8}
use audioreach_pulseaudio_pl.Channel.{ChannelMap}
use audioreach_pulseaudio_pl.Pal.{Device, StreamType}
use audioreach_pulseaudio_pl.Base.{Bool, List, Option, String, ℕ, ℤ, none, [], false}

-- The fields of `pa_format_info` that the handlers write.
pub record Format : Type 0 where
  pub encoding : Encoding
  pub rates : Option (List ℤ)
  pub sample_formats : Option (List String)
  pub channel_map : Option ChannelMap

-- `pa_pal_sink_config` and `pa_pal_source_config`
pub record Usecase : Type 0 where
  pub name : String
  pub description : Option String
  pub pal_devicepp_config : Option String
  pub id : ℕ
  pub stream_type : StreamType
  pub default_spec : SampleSpec
  pub default_encoding : Encoding
  pub default_map : ChannelMap
  pub alternate_sample_rate : ℕ
  pub use_hw_volume : Bool
  pub avoid_config_processing : ℕ
  pub formats : List Format
  pub ports : List String
  pub profiles : List String
  pub port_conf_string : Option (List String)
  pub is_dynamic : Bool
  pub buffer_size : ℕ
  pub buffer_count : ℕ

pub data Available : Type 0 where
  available_unknown available_no available_yes : Available

pub data PortDirection : Type 0 where
  direction_unset direction_output direction_input : PortDirection

-- `pa_pal_card_port_config`, with its node paths by the name of the field.
pub record Port : Type 0 where
  pub name : String
  pub description : Option String
  pub available : Available
  pub direction : PortDirection
  pub default_spec : SampleSpec
  pub default_map : ChannelMap
  pub priority : ℕ
  pub device : Device
  pub formats : List Format
  pub format_detection : Bool
  pub node_paths : List (String × String)
  pub pal_devicepp_config : Option String

-- `pa_pal_card_profile_config`
pub record Profile : Type 0 where
  pub name : String
  pub description : Option String
  pub priority : ℕ
  pub ports : List String
  pub port_conf_string : Option (List String)
  pub n_sinks : ℕ
  pub n_sources : ℕ
  pub max_sink_channels : ℕ
  pub max_source_channels : ℕ

-- `pa_pal_loopback_config`
pub record Loopback : Type 0 where
  pub name : String
  pub description : Option String
  pub in_port_conf_string : Option (List String)
  pub out_port_conf_string : Option (List String)
  pub in_ports : List String
  pub out_ports : List String

-- `pa_pal_config_data`
pub record ConfigData : Type 0 where
  pub ports : List (String × Port)
  pub profiles : List (String × Profile)
  pub sinks : List (String × Usecase)
  pub sources : List (String × Usecase)
  pub loopbacks : List (String × Loopback)
  pub default_profile : Option String

-- A text that cannot be read as a number, and one without words, is none; `parse_boolean` is 1, 0 or
-- negative.
pub record Parser : Type 0 where
  pub zero_stream_type : StreamType
  pub zero_device : Device
  pub zero_map : ChannelMap
  pub split_spaces : String → Option (List String)
  pub encoding_from_string : String → Encoding
  pub parse_sample_format : String → SampleFormat
  pub channel_map_parse : String → Option ChannelMap
  pub atou : String → Option ℕ
  pub atoi : String → Option ℤ
  pub parse_boolean : String → ℤ

abbrev pub zero_spec : SampleSpec
zero_spec = record { rate = 0; channels = 0; format = u8 }

abbrev pub new_usecase : Parser → String → ℕ → Usecase
new_usecase p name id = record {
  name = name;
  description = none;
  pal_devicepp_config = none;
  id = id;
  stream_type = p.zero_stream_type;
  default_spec = zero_spec;
  default_encoding = encoding_any;
  default_map = p.zero_map;
  alternate_sample_rate = 0;
  use_hw_volume = false;
  avoid_config_processing = 0;
  formats = [];
  ports = [];
  profiles = [];
  port_conf_string = none;
  is_dynamic = false;
  buffer_size = 0;
  buffer_count = 0;
}

abbrev pub new_port : Parser → String → Port
new_port p name = record {
  name = name;
  description = none;
  available = available_unknown;
  direction = direction_unset;
  default_spec = zero_spec;
  default_map = p.zero_map;
  priority = 0;
  device = p.zero_device;
  formats = [];
  format_detection = false;
  node_paths = [];
  pal_devicepp_config = none;
}

abbrev pub new_profile : String → Profile
new_profile name = record {
  name = name;
  description = none;
  priority = 0;
  ports = [];
  port_conf_string = none;
  n_sinks = 0;
  n_sources = 0;
  max_sink_channels = 0;
  max_source_channels = 0;
}

abbrev pub new_loopback : String → Loopback
new_loopback name = record {
  name = name;
  description = none;
  in_port_conf_string = none;
  out_port_conf_string = none;
  in_ports = [];
  out_ports = [];
}

-- `pa_pal_config_parse_new` before it reads a line.
abbrev pub empty_config : ConfigData
empty_config = record {
  ports = [];
  profiles = [];
  sinks = [];
  sources = [];
  loopbacks = [];
  default_profile = none;
}
