-- ===== src/Config/Table.antt =====
-- The table of pal-config-parser.c from the keyword of a line to its handler
-- (`pa_pal_config_parse_new`), and a line.
use audioreach_pulseaudio_pl.Config.Map.{lookup}
use audioreach_pulseaudio_pl.Config.Formats.{
  parse_channel_maps, parse_encodings, parse_sample_formats, parse_sample_rates,
}
use audioreach_pulseaudio_pl.Config.{ConfigData, Parser}
use audioreach_pulseaudio_pl.Config.Names.{parse_port_names}
use audioreach_pulseaudio_pl.Base.{Bool, List, Option, String, [], none, some, ◌∷◌}
use audioreach_pulseaudio_pl.Config.Fields.{
  parse_alternative_sample_rate, parse_avoid_processing, parse_default_buffer_count,
  parse_default_buffer_size, parse_default_channel_map, parse_default_encoding,
  parse_default_sample_format, parse_default_sample_rate, parse_type, parse_use_hw_volume,
}
use audioreach_pulseaudio_pl.Config.Sections.{
  parse_description, parse_max_sink_channels, parse_max_source_channels, parse_pal_devicepp_config,
  parse_port_device, parse_port_direction, parse_port_format_detection, parse_port_sys_path,
  parse_presence, parse_priority,
}

-- The parser, the section, the value and the data.
abbrev pub Handler : Type 0
Handler = Parser → String → String → ConfigData → Bool × ConfigData

abbrev pub handlers : List (String × Handler)
handlers =
    ("direction", parse_port_direction)
    ∷ ("device", parse_port_device)
    ∷ ("hdmi-tx-state", parse_port_sys_path "hdmi-tx-state")
    ∷ ("format-detection", parse_port_format_detection)
    ∷ ("max-sink-channels", parse_max_sink_channels)
    ∷ ("max-source-channels", parse_max_source_channels)
    ∷ ("use-hw-volume", parse_use_hw_volume)
    ∷ ("type", parse_type)
    ∷ ("avoid-processing", parse_avoid_processing)
    ∷ ("alternate-sample-rate", parse_alternative_sample_rate)
    ∷ ("port-names", parse_port_names)
    ∷ ("priority", parse_priority)
    ∷ ("description", parse_description)
    ∷ ("presence", parse_presence)
    ∷ ("default-encoding", parse_default_encoding)
    ∷ ("default-sample-rate", parse_default_sample_rate)
    ∷ ("default-sample-format", parse_default_sample_format)
    ∷ ("default-channel-map", parse_default_channel_map)
    ∷ ("default-buffer-size", parse_default_buffer_size)
    ∷ ("default-buffer-count", parse_default_buffer_count)
    ∷ ("encodings", parse_encodings)
    ∷ ("sample-rates", parse_sample_rates)
    ∷ ("sample-formats", parse_sample_formats)
    ∷ ("channel-maps", parse_channel_maps)
    ∷ ("pal-devicepp-config", parse_pal_devicepp_config)
    ∷ ("in-port-names", parse_port_names)
    ∷ ("out-port-names", parse_port_names)
    ∷ []

abbrev pub handled :
    Parser → String → String → ConfigData → Option Handler → Option (Bool × ConfigData)
handled p section rvalue c none = none
handled p section rvalue c (some handler) = some (handler p section rvalue c)

-- A line of a section with one of the table's keywords; none for another keyword, which PulseAudio
-- handles.
unfoldable pub parse_line :
    Parser → String → String → String → ConfigData → Option (Bool × ConfigData)
parse_line p lvalue section rvalue c = handled p section rvalue c (lookup lvalue handlers)
