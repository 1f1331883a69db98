-- ===== src/Config/Formats.antt =====
-- The handlers of pal-config-parser.c for the encodings, the sample rates, the sample formats and the
-- channel maps of a section.
use audioreach_pulseaudio_pl.Channel.{ChannelMap}
use audioreach_pulseaudio_pl.Sink.Rates.{supported_sink_rates}
use audioreach_pulseaudio_pl.Source.Rates.{is_supported_source_encoding, supported_source_rates}
use audioreach_pulseaudio_pl.Config.{ConfigData, Format, Parser, Port, Usecase}
use audioreach_pulseaudio_pl.Formats.{Encoding, is_supported_encoding}
use audioreach_pulseaudio_pl.Config.Entry.{Edit, edit_usecase_or_port}
use audioreach_pulseaudio_pl.Base.{
  Bool, List, Option, String, [], false, if◌then◌else◌, mem, negsuc, none, pos, some, true, ℕ, ℤ,
  ◌++◌, ◌∷◌,
}

-- The formats of a use case or of a port, changed.
abbrev pub usecase_formats : Edit (List Format) → Edit Usecase
usecase_formats f u = let (ok, formats) = f u.formats in (ok, record u { formats = formats })

abbrev pub port_formats : Edit (List Format) → Edit Port
port_formats f u = let (ok, formats) = f u.formats in (ok, record u { formats = formats })

-- The loop of `pa_pal_config_parse_encodings`; the formats that were added stay when a later item
-- fails.
unfoldable pub add_encodings : Parser → (Encoding → Bool) → List String → Edit (List Format)
add_encodings p supported [] formats = (true, formats)
add_encodings p supported (item ∷ items) formats =
    let format : Format = record {
      encoding = p.encoding_from_string item;
      rates = none;
      sample_formats = none;
      channel_map = none;
    } in
    let rest = add_encodings p supported items (formats ++ (format ∷ [])) in
    if supported (p.encoding_from_string item) then rest else (false, formats)

abbrev pub encodings_of : Parser → (Encoding → Bool) → Option (List String) → Edit (List Format)
encodings_of p supported none formats = (false, formats)
encodings_of p supported (some items) formats = add_encodings p supported items formats

abbrev pub any_encoding : Encoding → Bool
any_encoding e = true

unfoldable pub parse_encodings : Parser → String → String → ConfigData → Bool × ConfigData
parse_encodings p section rvalue c =
    let items = p.split_spaces rvalue in
    edit_usecase_or_port p section (usecase_formats (encodings_of p is_supported_encoding items))
      (usecase_formats (encodings_of p is_supported_source_encoding items))
      (port_formats (encodings_of p any_encoding items)) c

abbrev pub add_rate : (ℤ → Bool) → Option ℤ → Option (List ℤ) → Option (List ℤ)
add_rate supported none rates = none
add_rate supported (some rate) none = none
add_rate supported (some rate) (some rates) = if supported rate then some (rate ∷ rates) else none

-- The array of rates; `supported` is asked for the rate as a `uint32_t`, which no negative rate is.
unfoldable pub read_rates : Parser → (ℤ → Bool) → List String → Option (List ℤ)
read_rates p supported [] = some []
read_rates p supported (item ∷ items) =
    add_rate supported (p.atoi item) (read_rates p supported items)

abbrev pub among : List ℕ → ℤ → Bool
among rates (pos n) = mem n rates
among rates (negsuc n) = false

abbrev pub any_rate : ℤ → Bool
any_rate rate = true

-- Every format of the list gets the rates.
abbrev pub set_rates : Option (List ℤ) → List Format → List Format
set_rates rates [] = []
set_rates rates (f ∷ formats) = record f { rates = rates } ∷ set_rates rates formats

abbrev pub rates_read : Option (List ℤ) → Edit (List Format)
rates_read none formats = (false, formats)
rates_read (some rates) formats = (true, set_rates (some rates) formats)

abbrev pub rates_of : Parser → (ℤ → Bool) → Option (List String) → Edit (List Format)
rates_of p supported items [] = (false, [])
rates_of p supported none formats = (false, formats)
rates_of p supported (some items) formats = rates_read (read_rates p supported items) formats

unfoldable pub parse_sample_rates : Parser → String → String → ConfigData → Bool × ConfigData
parse_sample_rates p section rvalue c =
    let items = p.split_spaces rvalue in
    edit_usecase_or_port p section (usecase_formats (rates_of p (among supported_sink_rates) items))
      (usecase_formats (rates_of p (among supported_source_rates) items))
      (port_formats (rates_of p any_rate items)) c

abbrev pub set_sample_formats : List String → List Format → List Format
set_sample_formats items [] = []
set_sample_formats items (f ∷ formats) =
    record f { sample_formats = some items } ∷ set_sample_formats items formats

-- The words are stored as they are.
abbrev pub sample_formats_of : Option (List String) → Edit (List Format)
sample_formats_of items [] = (false, [])
sample_formats_of none formats = (false, formats)
sample_formats_of (some items) formats = (true, set_sample_formats items formats)

unfoldable pub parse_sample_formats : Parser → String → String → ConfigData → Bool × ConfigData
parse_sample_formats p section rvalue c =
    let edit = sample_formats_of (p.split_spaces rvalue) in
    edit_usecase_or_port p section (usecase_formats edit) (usecase_formats edit) (port_formats edit)
      c

abbrev pub set_channel_maps : ChannelMap → List Format → List Format
set_channel_maps map [] = []
set_channel_maps map (f ∷ formats) =
    record f { channel_map = some map } ∷ set_channel_maps map formats

abbrev pub channel_maps_of : Option ChannelMap → Edit (List Format)
channel_maps_of none formats = (false, formats)
channel_maps_of (some map) formats = (true, set_channel_maps map formats)

unfoldable pub parse_channel_maps : Parser → String → String → ConfigData → Bool × ConfigData
parse_channel_maps p section rvalue c =
    let edit = channel_maps_of (p.channel_map_parse rvalue) in
    edit_usecase_or_port p section (usecase_formats edit) (usecase_formats edit) (port_formats edit)
      c
