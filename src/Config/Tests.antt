-- ===== src/Config/Tests.antt =====
-- The theorems on the configuration at a concrete reading of the values.
use text.Mathlib.Text.{◌==◌ as str_eq}
use audioreach_pulseaudio_pl.Sink.Rates.{s16le}
use audioreach_pulseaudio_pl.Channel.{ChannelMap, front_left}
use audioreach_pulseaudio_pl.Pal.{device_none, low_latency}
use audioreach_pulseaudio_pl.Config.Table.{parse_line}
use audioreach_pulseaudio_pl.Config.Sections.{parse_port_direction}
use audioreach_pulseaudio_pl.Config.Lines.{Read-IsValid, line, no_line}
use audioreach_pulseaudio_pl.Config.Names.{add_usecase_ports, link_profiles, parse_port_names}
use audioreach_pulseaudio_pl.Formats.{encoding_pcm}
use audioreach_pulseaudio_pl.Config.Invariant.{IsValid, empty-IsValid}
use audioreach_pulseaudio_pl.Config.Map.{lookup}
use audioreach_pulseaudio_pl.Config.Entry.{after_prefix, edit_port, edit_profile, edit_sink}
use audioreach_pulseaudio_pl.Config.{
  ConfigData, Parser, Usecase, direction_output, empty_config, new_port, new_usecase,
}
use audioreach_pulseaudio_pl.Config.Answers.{parse_default_sample_rate_lem}
use audioreach_pulseaudio_pl.Base.{
  List, Option, String, [], false, none, pos, refl, some, true, ◌∷◌, ◌≡◌,
}
use audioreach_pulseaudio_pl.Config.Fields.{parse_default_sample_rate}

abbrev plain_map : ChannelMap
plain_map = record { channels = 2; positions = λ i. front_left }

-- Every value is one word, PCM, and the number 44100.
abbrev plain : Parser
plain = record {
  zero_stream_type = low_latency;
  zero_device = device_none;
  zero_map = plain_map;
  split_spaces = λ s. some (s ∷ []);
  encoding_from_string = λ s. encoding_pcm;
  parse_sample_format = λ s. s16le;
  channel_map_parse = λ s. some plain_map;
  atou = λ s. some 44100;
  atoi = λ s. some (pos 44100);
  parse_boolean = λ s. pos 1;
}

abbrev one_port : ConfigData
one_port = (parse_port_direction plain "Port speaker" "out" empty_config).1

abbrev one_sink : ConfigData
one_sink = (parse_port_names plain "Sink low" "speaker" one_port).1

port_read :
    parse_line plain "direction" "Port speaker" "out" empty_config
    ≡ some ((parse_port_direction plain "Port speaker" "out" empty_config).0, one_port)
unfolding parse_line
port_read = refl

sink_read :
    parse_line plain "port-names" "Sink low" "speaker" one_port
    ≡ some ((parse_port_names plain "Sink low" "speaker" one_port).0, one_sink)
unfolding parse_line
sink_read = refl

-- The two lines: one port, and one sink that lists it.
port_known :
    lookup "speaker" one_port.ports
    ≡ some (record (new_port plain "speaker") { direction = direction_output })
unfolding parse_port_direction edit_port after_prefix
port_known = refl

abbrev ports_of : Option Usecase → List String
ports_of none = []
ports_of (some u) = u.ports

sink_ports : ports_of (lookup "low" one_sink.sinks) ≡ "speaker" ∷ []
unfolding parse_port_names edit_profile edit_sink edit_port after_prefix add_usecase_ports
    parse_port_direction link_profiles
sink_ports = refl

Read-IsValid_example : IsValid one_sink
Read-IsValid_example = Read-IsValid plain empty_config empty-IsValid (
    line "port-names" "Sink low" "speaker" _
      (line "direction" "Port speaker" "out" _ no_line port_read) sink_read)

sink_section : after_prefix "Sink " "Sink low" ≡ some "low"
unfolding after_prefix
sink_section = refl

parse_default_sample_rate_example :
    let u = new_usecase plain "low" 1 in
    let (ok, c') = parse_default_sample_rate plain "Sink low" "44100" empty_config in
    (ok ≡ true)
    × (lookup "low" c'.sinks
        ≡ some (record u { default_spec = record (u.default_spec) { rate = 44100 } }))
    × ((other : String) → str_eq "low" other ≡ false → lookup other c'.sinks ≡ none)
    × (c'.sources ≡ [])
    × (c'.ports ≡ [])
    × (c'.profiles ≡ [])
parse_default_sample_rate_example =
    parse_default_sample_rate_lem plain "Sink low" "44100" "low" empty_config sink_section
