-- ===== src/Config/FormatsKeep.antt =====
-- That the handlers of pal-config-parser.c for encodings, rates, formats and channel maps keep what
-- holds of the data.
use audioreach_pulseaudio_pl.Config.Chains.{edit_usecase_or_port-IsValid, HandlerKeeps}
use audioreach_pulseaudio_pl.Sink.Rates.{supported_sink_rates}
use audioreach_pulseaudio_pl.Formats.{Encoding, is_supported_encoding}
use audioreach_pulseaudio_pl.Source.Rates.{is_supported_source_encoding, supported_source_rates}
use audioreach_pulseaudio_pl.Config.{ConfigData, Format, Parser}
use audioreach_pulseaudio_pl.Config.Entry.{Edit, edit_usecase_or_port}
use audioreach_pulseaudio_pl.Config.Formats.{
  add_encodings, add_rate, among, channel_maps_of, encodings_of, parse_channel_maps,
  parse_encodings, parse_sample_formats, parse_sample_rates, port_formats, rates_of, rates_read,
  read_rates, sample_formats_of, set_channel_maps, set_rates, set_sample_formats, usecase_formats,
  any_encoding, any_rate,
}
use audioreach_pulseaudio_pl.Channel.{ChannelMap}
use audioreach_pulseaudio_pl.Config.Invariant.{
  IsValid, PortEdit, UsecaseEdit, all_rates, encodings_ok, rates_ok,
}
use audioreach_pulseaudio_pl.Base.{
  Bool, Bool-cases, List, Option, String, [], arith, inl, inr, none, refl, some, true, ℤ, ◌++◌, ◌∙◌,
  ◌∷◌, ◌≡◌,
}

-- A change of the formats alone.
abbrev pub FormatsEdit : (Encoding → Bool) → (ℤ → Bool) → Edit (List Format) → Type 0
FormatsEdit encodings rates f =
    (formats : List Format)
    → encodings_ok encodings formats ≡ true
    → rates_ok rates formats ≡ true
    → (encodings_ok encodings (f formats).1 ≡ true) × (rates_ok rates (f formats).1 ≡ true)

usecase_formats-UsecaseEdit :
    (encodings : Encoding → Bool) (rates : ℤ → Bool) (f : Edit (List Format))
    → FormatsEdit encodings rates f
    → UsecaseEdit encodings rates (usecase_formats f)
usecase_formats-UsecaseEdit encodings rates f e u =
    (refl, refl, refl, λ h. let k = e u.formats h.0 h.1 in (k.0, k.1, h.2))

encodings_ok-append :
    (supported : Encoding → Bool) (a b : List Format)
    → encodings_ok supported a ≡ true
    → encodings_ok supported b ≡ true
    → encodings_ok supported (a ++ b) ≡ true
encodings_ok-append supported [] b h k = k
encodings_ok-append supported (f ∷ a) b h k = ground (arith, encodings_ok-append supported a b)

rates_ok-append :
    (supported : ℤ → Bool) (a b : List Format)
    → rates_ok supported a ≡ true
    → rates_ok supported b ≡ true
    → rates_ok supported (a ++ b) ≡ true
rates_ok-append supported [] b h k = k
rates_ok-append supported (f ∷ a) b h k = ground (arith, rates_ok-append supported a b)

add_encodings-FormatsEdit :
    (p : Parser) (encodings : Encoding → Bool) (rates : ℤ → Bool) (items : List String)
    → FormatsEdit encodings rates (add_encodings p encodings items)
unfolding add_encodings
add_encodings-FormatsEdit p encodings rates [] formats a b = (a, b)
add_encodings-FormatsEdit p encodings rates (item ∷ items) formats a b =
    let format : Format = record {
      encoding = p.encoding_from_string item;
      rates = none;
      sample_formats = none;
      channel_map = none;
    } in
    elim (Bool-cases (encodings (p.encoding_from_string item))) [
      | inl e ↦
          let h : encodings_ok encodings (format ∷ []) ≡ true = ground arith in
          rw e (
            add_encodings-FormatsEdit p encodings rates items (formats ++ (format ∷ []))
              (encodings_ok-append encodings formats (format ∷ []) a h)
              (rates_ok-append rates formats (format ∷ []) b refl))
      | inr e ↦ rw e (a, b)
    ]

encodings_of-FormatsEdit :
    (p : Parser) (encodings : Encoding → Bool) (rates : ℤ → Bool) (items : Option (List String))
    → FormatsEdit encodings rates (encodings_of p encodings items)
encodings_of-FormatsEdit p encodings rates none formats a b = (a, b)
encodings_of-FormatsEdit p encodings rates (some items) formats a b =
    add_encodings-FormatsEdit p encodings rates items formats a b

port_formats-PortEdit : (f : Edit (List Format)) → PortEdit (port_formats f)
port_formats-PortEdit f u = refl

formats-IsValid :
    (p : Parser) (section : String) (f g h : Edit (List Format)) (c : ConfigData)
    → FormatsEdit is_supported_encoding (among supported_sink_rates) f
    → FormatsEdit is_supported_source_encoding (among supported_source_rates) g
    → IsValid c
    → IsValid
        (edit_usecase_or_port p section
          (usecase_formats f)
          (usecase_formats g)
          (port_formats h)
          c).1
formats-IsValid p section f g h c a b v =
    edit_usecase_or_port-IsValid p section (usecase_formats f) (usecase_formats g) (port_formats h)
      c (usecase_formats-UsecaseEdit is_supported_encoding (among supported_sink_rates) f a)
      (usecase_formats-UsecaseEdit is_supported_source_encoding (among supported_source_rates) g b)
      (port_formats-PortEdit h) v

pub parse_encodings-IsValid : HandlerKeeps parse_encodings
unfolding parse_encodings
parse_encodings-IsValid p section rvalue c v =
    let items = p.split_spaces rvalue in
    formats-IsValid p section (encodings_of p is_supported_encoding items)
      (encodings_of p is_supported_source_encoding items) (encodings_of p any_encoding items) c
      (encodings_of-FormatsEdit p is_supported_encoding (among supported_sink_rates) items)
      (encodings_of-FormatsEdit p is_supported_source_encoding (among supported_source_rates) items)
      v

-- What is read as supported rates is made of supported rates.
abbrev ReadOk : (ℤ → Bool) → Option (List ℤ) → Type 0
ReadOk supported none = Unit {0}
ReadOk supported (some rates) = all_rates supported rates ≡ true

add_rate-ReadOk :
    (supported : ℤ → Bool) (rate : Option ℤ) (rates : Option (List ℤ))
    → ReadOk supported rates
    → ReadOk supported (add_rate supported rate rates)
add_rate-ReadOk supported none rates h = tt
add_rate-ReadOk supported (some rate) none h = tt
add_rate-ReadOk supported (some rate) (some rates) h = ground arith

read_rates-ReadOk :
    (p : Parser) (supported : ℤ → Bool) (items : List String)
    → ReadOk supported (read_rates p supported items)
unfolding read_rates
read_rates-ReadOk p supported [] = refl
read_rates-ReadOk p supported (item ∷ items) =
    add_rate-ReadOk supported (p.atoi item) (read_rates p supported items)
      (read_rates-ReadOk p supported items)

set_rates_lem :
    (encodings : Encoding → Bool) (supported : ℤ → Bool) (rates : List ℤ) (formats : List Format)
    → all_rates supported rates ≡ true
    → (encodings_ok encodings (set_rates (some rates) formats) ≡ encodings_ok encodings formats)
      × (rates_ok supported (set_rates (some rates) formats) ≡ true)
set_rates_lem encodings supported rates [] h = (refl, refl)
set_rates_lem encodings supported rates (f ∷ formats) h =
    ground (arith, set_rates_lem encodings supported rates formats h)

rates_read-FormatsEdit :
    (encodings : Encoding → Bool) (supported : ℤ → Bool) (rates : Option (List ℤ))
    → ReadOk supported rates
    → FormatsEdit encodings supported (rates_read rates)
rates_read-FormatsEdit encodings supported none h formats a b = (a, b)
rates_read-FormatsEdit encodings supported (some rates) h formats a b =
    let k = set_rates_lem encodings supported rates formats h in (k.0 ∙ a, k.1)

rates_of-FormatsEdit :
    (p : Parser) (encodings : Encoding → Bool) (supported : ℤ → Bool) (items : Option (List String))
    → FormatsEdit encodings supported (rates_of p supported items)
rates_of-FormatsEdit p encodings supported none [] a b = (a, b)
rates_of-FormatsEdit p encodings supported (some items) [] a b = (a, b)
rates_of-FormatsEdit p encodings supported none (f ∷ formats) a b = (a, b)
rates_of-FormatsEdit p encodings supported (some items) (f ∷ formats) a b =
    rates_read-FormatsEdit encodings supported (read_rates p supported items)
      (read_rates-ReadOk p supported items) (f ∷ formats) a b

pub parse_sample_rates-IsValid : HandlerKeeps parse_sample_rates
unfolding parse_sample_rates
parse_sample_rates-IsValid p section rvalue c v =
    let items = p.split_spaces rvalue in
    formats-IsValid p section (rates_of p (among supported_sink_rates) items)
      (rates_of p (among supported_source_rates) items) (rates_of p any_rate items) c
      (rates_of-FormatsEdit p is_supported_encoding (among supported_sink_rates) items)
      (rates_of-FormatsEdit p is_supported_source_encoding (among supported_source_rates) items) v

set_sample_formats_lem :
    (encodings : Encoding → Bool) (supported : ℤ → Bool) (items : List String)
    (formats : List Format)
    → (encodings_ok encodings (set_sample_formats items formats) ≡ encodings_ok encodings formats)
      × (rates_ok supported (set_sample_formats items formats) ≡ rates_ok supported formats)
set_sample_formats_lem encodings supported items [] = (refl, refl)
set_sample_formats_lem encodings supported items (f ∷ formats) =
    ground (arith, set_sample_formats_lem encodings supported items formats)

sample_formats_of-FormatsEdit :
    (encodings : Encoding → Bool) (supported : ℤ → Bool) (items : Option (List String))
    → FormatsEdit encodings supported (sample_formats_of items)
sample_formats_of-FormatsEdit encodings supported none [] a b = (a, b)
sample_formats_of-FormatsEdit encodings supported (some items) [] a b = (a, b)
sample_formats_of-FormatsEdit encodings supported none (f ∷ formats) a b = (a, b)
sample_formats_of-FormatsEdit encodings supported (some items) (f ∷ formats) a b =
    let k = set_sample_formats_lem encodings supported items (f ∷ formats) in (k.0 ∙ a, k.1 ∙ b)

pub parse_sample_formats-IsValid : HandlerKeeps parse_sample_formats
unfolding parse_sample_formats
parse_sample_formats-IsValid p section rvalue c v =
    let items = p.split_spaces rvalue in
    formats-IsValid p section (sample_formats_of items) (sample_formats_of items)
      (sample_formats_of items) c
      (sample_formats_of-FormatsEdit is_supported_encoding (among supported_sink_rates) items)
      (sample_formats_of-FormatsEdit is_supported_source_encoding (among supported_source_rates)
        items)
      v

set_channel_maps_lem :
    (encodings : Encoding → Bool) (supported : ℤ → Bool) (map : ChannelMap) (formats : List Format)
    → (encodings_ok encodings (set_channel_maps map formats) ≡ encodings_ok encodings formats)
      × (rates_ok supported (set_channel_maps map formats) ≡ rates_ok supported formats)
set_channel_maps_lem encodings supported map [] = (refl, refl)
set_channel_maps_lem encodings supported map (f ∷ formats) =
    ground (arith, set_channel_maps_lem encodings supported map formats)

channel_maps_of-FormatsEdit :
    (encodings : Encoding → Bool) (supported : ℤ → Bool) (map : Option ChannelMap)
    → FormatsEdit encodings supported (channel_maps_of map)
channel_maps_of-FormatsEdit encodings supported none formats a b = (a, b)
channel_maps_of-FormatsEdit encodings supported (some map) formats a b =
    let k = set_channel_maps_lem encodings supported map formats in (k.0 ∙ a, k.1 ∙ b)

pub parse_channel_maps-IsValid : HandlerKeeps parse_channel_maps
unfolding parse_channel_maps
parse_channel_maps-IsValid p section rvalue c v =
    let items = p.channel_map_parse rvalue in
    formats-IsValid p section (channel_maps_of items) (channel_maps_of items)
      (channel_maps_of items) c
      (channel_maps_of-FormatsEdit is_supported_encoding (among supported_sink_rates) items)
      (channel_maps_of-FormatsEdit is_supported_source_encoding (among supported_source_rates)
        items)
      v
