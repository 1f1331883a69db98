-- ===== src/Config/Handlers.antt =====
-- That the handlers of pal-config-parser.c that set one field keep what holds of the data.
use audioreach_pulseaudio_pl.Pal.{StreamType}
use audioreach_pulseaudio_pl.Config.Fields.{
  add_avoided, avoid_words, default_map_read, is_any, parse_alternative_sample_rate,
  parse_avoid_processing, parse_default_buffer_count, parse_default_buffer_size,
  parse_default_channel_map, parse_default_encoding, parse_default_sample_format,
  parse_default_sample_rate, parse_type, parse_use_hw_volume, set_alternate, set_buffer_count,
  set_buffer_size, set_default_encoding, set_default_format, set_default_map, set_default_rate,
  set_hw_volume, set_port_map, set_port_rate, type_words,
}
use mathlib.Core.Path.{ap, subst, sym}
use audioreach_pulseaudio_pl.Config.Chains.{
  edit_usecase_or_port-IsValid, HandlerKeeps, edit_usecase-IsValid,
}
use audioreach_pulseaudio_pl.Sink.Rates.{supported_sink_rates, get_type_from_string}
use audioreach_pulseaudio_pl.Formats.{Encoding, is_supported_encoding}
use audioreach_pulseaudio_pl.Source.Rates.{
  is_supported_source_encoding, supported_source_rates, is_supported_source_rate,
  source_type_from_string,
}
use audioreach_pulseaudio_pl.Config.{ConfigData, Parser, Port, Usecase}
use audioreach_pulseaudio_pl.Config.Entry.{Edit, edit_usecase, edit_usecase_or_port}
use audioreach_pulseaudio_pl.Config.Formats.{among}
use audioreach_pulseaudio_pl.Channel.{ChannelMap}
use audioreach_pulseaudio_pl.Config.Invariant.{
  IsValid, PortEdit, UsecaseEdit, encodings_ok, rates_ok,
}
use audioreach_pulseaudio_pl.Base.{
  Bool, Bool-cases, List, Option, String, inl, inr, none, refl, some, true, ℤ, ◌∙◌, ◌≡◌, mem, ◌⊎◌,
}

-- A change of a field that the invariant does not read.
abbrev pub SameUsecase : Edit Usecase → Type 0
SameUsecase f =
    (u : Usecase)
    → ((f u).1.name ≡ u.name)
      × ((f u).1.id ≡ u.id)
      × ((f u).1.ports ≡ u.ports)
      × ((f u).1.formats ≡ u.formats)
      × ((f u).1.default_encoding ≡ u.default_encoding)

pub same-UsecaseEdit :
    (encodings : Encoding → Bool) (rates : ℤ → Bool) (f : Edit Usecase)
    → SameUsecase f
    → UsecaseEdit encodings rates f
same-UsecaseEdit encodings rates f e u =
    let k = e u in
    (
      k.0,
      k.1,
      k.2,
      λ h. (
        ap (encodings_ok encodings) k.3 ∙ h.0,
        ap (rates_ok rates) k.3 ∙ h.1,
        subst (λ x. (is_any x ≡ true) ⊎ (encodings x ≡ true)) (sym k.4) h.2,
      ),
    )

plain_edit-IsValid :
    (p : Parser) (section : String) (f g : Edit Usecase) (c : ConfigData)
    → SameUsecase f
    → SameUsecase g
    → IsValid c
    → IsValid (edit_usecase p section f g c).1
plain_edit-IsValid p section f g c a b v =
    edit_usecase-IsValid p section f g c
      (same-UsecaseEdit is_supported_encoding (among supported_sink_rates) f a)
      (same-UsecaseEdit is_supported_source_encoding (among supported_source_rates) g b) v

pub same_or_port-IsValid :
    (p : Parser) (section : String) (f g : Edit Usecase) (h : Edit Port) (c : ConfigData)
    → SameUsecase f
    → SameUsecase g
    → PortEdit h
    → IsValid c
    → IsValid (edit_usecase_or_port p section f g h c).1
same_or_port-IsValid p section f g h c a b d v =
    edit_usecase_or_port-IsValid p section f g h c
      (same-UsecaseEdit is_supported_encoding (among supported_sink_rates) f a)
      (same-UsecaseEdit is_supported_source_encoding (among supported_source_rates) g b) d v

type_words-SameUsecase :
    (type_of : String → StreamType) (items : Option (List String))
    → SameUsecase (type_words type_of items)
type_words-SameUsecase type_of none u = (refl, refl, refl, refl, refl)
type_words-SameUsecase type_of (some items) u = (refl, refl, refl, refl, refl)

pub parse_type-IsValid : HandlerKeeps parse_type
unfolding parse_type
parse_type-IsValid p section rvalue c v =
    let items = p.split_spaces rvalue in
    plain_edit-IsValid p section (type_words get_type_from_string items)
      (type_words source_type_from_string items) c
      (type_words-SameUsecase get_type_from_string items)
      (type_words-SameUsecase source_type_from_string items) v

avoid_words-IsValid :
    (p : Parser) (section : String) (items : Option (List String)) (c : ConfigData)
    → IsValid c
    → IsValid (avoid_words p section items c).1
avoid_words-IsValid p section none c v = v
avoid_words-IsValid p section (some items) c v =
    plain_edit-IsValid p section (add_avoided items) (add_avoided items) c
      (λ u. (refl, refl, refl, refl, refl)) (λ u. (refl, refl, refl, refl, refl)) v

pub parse_avoid_processing-IsValid : HandlerKeeps parse_avoid_processing
unfolding parse_avoid_processing
parse_avoid_processing-IsValid p section rvalue c v =
    avoid_words-IsValid p section (p.split_spaces rvalue) c v

set_default_encoding-UsecaseEdit :
    (encodings : Encoding → Bool) (rates : ℤ → Bool) (e : Encoding)
    → UsecaseEdit encodings rates (set_default_encoding encodings e)
set_default_encoding-UsecaseEdit encodings rates e u = elim (Bool-cases (encodings e)) [
  | inl h ↦ rw h (refl, refl, refl, λ k. (k.0, k.1, inr h))
  | inr h ↦ rw h (refl, refl, refl, λ k. k)
]

pub parse_default_encoding-IsValid : HandlerKeeps parse_default_encoding
unfolding parse_default_encoding
parse_default_encoding-IsValid p section rvalue c v =
    let e = p.encoding_from_string rvalue in
    let k =
      edit_usecase-IsValid p section (set_default_encoding is_supported_encoding e)
        (set_default_encoding is_supported_source_encoding e) c
        (set_default_encoding-UsecaseEdit is_supported_encoding (among supported_sink_rates) e)
        (set_default_encoding-UsecaseEdit is_supported_source_encoding
          (among supported_source_rates) e)
        v in
    elim (Bool-cases (is_any e)) [ inl h ↦ rw h v | inr h ↦ rw h k ]

pub parse_default_sample_rate-IsValid : HandlerKeeps parse_default_sample_rate
unfolding parse_default_sample_rate
parse_default_sample_rate-IsValid p section rvalue c v =
    same_or_port-IsValid p section
      (set_default_rate (λ r. mem r supported_sink_rates) (p.atou rvalue))
      (set_default_rate is_supported_source_rate (p.atou rvalue)) (set_port_rate (p.atou rvalue)) c
      (λ u. (refl, refl, refl, refl, refl)) (λ u. (refl, refl, refl, refl, refl)) (λ u. refl) v

pub parse_default_sample_format-IsValid : HandlerKeeps parse_default_sample_format
unfolding parse_default_sample_format
parse_default_sample_format-IsValid p section rvalue c v =
    let edit = set_default_format (p.parse_sample_format rvalue) in
    plain_edit-IsValid p section edit edit c (λ u. (refl, refl, refl, refl, refl))
      (λ u. (refl, refl, refl, refl, refl)) v

default_map-IsValid :
    (p : Parser) (section : String) (map : Option ChannelMap) (c : ConfigData)
    → IsValid c
    → IsValid (default_map_read p section map c).1
default_map-IsValid p section none c v = v
default_map-IsValid p section (some map) c v =
    same_or_port-IsValid p section (set_default_map map) (set_default_map map) (set_port_map map) c
      (λ u. (refl, refl, refl, refl, refl)) (λ u. (refl, refl, refl, refl, refl)) (λ u. refl) v

pub parse_default_channel_map-IsValid : HandlerKeeps parse_default_channel_map
unfolding parse_default_channel_map
parse_default_channel_map-IsValid p section rvalue c v =
    default_map-IsValid p section (p.channel_map_parse rvalue) c v

pub parse_default_buffer_size-IsValid : HandlerKeeps parse_default_buffer_size
unfolding parse_default_buffer_size
parse_default_buffer_size-IsValid p section rvalue c v =
    let edit = set_buffer_size (p.atou rvalue) in
    plain_edit-IsValid p section edit edit c (λ u. (refl, refl, refl, refl, refl))
      (λ u. (refl, refl, refl, refl, refl)) v

pub parse_default_buffer_count-IsValid : HandlerKeeps parse_default_buffer_count
unfolding parse_default_buffer_count
parse_default_buffer_count-IsValid p section rvalue c v =
    let edit = set_buffer_count (p.atou rvalue) in
    plain_edit-IsValid p section edit edit c (λ u. (refl, refl, refl, refl, refl))
      (λ u. (refl, refl, refl, refl, refl)) v

pub parse_alternative_sample_rate-IsValid : HandlerKeeps parse_alternative_sample_rate
unfolding parse_alternative_sample_rate
parse_alternative_sample_rate-IsValid p section rvalue c v =
    let edit = set_alternate (p.atou rvalue) in
    plain_edit-IsValid p section edit edit c (λ u. (refl, refl, refl, refl, refl))
      (λ u. (refl, refl, refl, refl, refl)) v

pub parse_use_hw_volume-IsValid : HandlerKeeps parse_use_hw_volume
unfolding parse_use_hw_volume
parse_use_hw_volume-IsValid p section rvalue c v =
    let edit = set_hw_volume (p.parse_boolean rvalue) in
    plain_edit-IsValid p section edit edit c (λ u. (refl, refl, refl, refl, refl))
      (λ u. (refl, refl, refl, refl, refl)) v
