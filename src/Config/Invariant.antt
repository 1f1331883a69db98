-- ===== src/Config/Invariant.antt =====
-- What holds of the data that pal-config-parser.c collects, and that an entry's change keeps it.
use audioreach_pulseaudio_pl.Config.Fields.{is_any}
use audioreach_pulseaudio_pl.Config.Formats.{among}
use audioreach_pulseaudio_pl.Source.Rates.{is_supported_source_encoding, supported_source_rates}
use audioreach_pulseaudio_pl.Formats.{Encoding, is_supported_encoding}
use audioreach_pulseaudio_pl.Config.{
  ConfigData, Format, Loopback, Port, Profile, Usecase, empty_config,
}
use audioreach_pulseaudio_pl.Config.Entry.{Edit}
use audioreach_pulseaudio_pl.Sink.Rates.{supported_sink_rates}
use audioreach_pulseaudio_pl.Base.{
  Bool, Bool-cases, List, String, [], arith, false, get_or, if◌then◌else◌, inl, inr, is_some,
  length, refl, suc, true, ℕ, ℤ, ◌+◌, ◌∷◌, ◌≡◌, ◌⊎◌, Option, none, some, ◌∙◌,
}
use audioreach_pulseaudio_pl.Config.Map.{Every, lookup, lookup-put, put}
use text.Mathlib.Text.{◌==◌ as str_eq}
use mathlib.Core.Path.{ap}

-- Are the encodings of the formats supported, and their rates?
abbrev pub encodings_ok : (Encoding → Bool) → List Format → Bool
encodings_ok supported [] = true
encodings_ok supported (f ∷ formats) =
    if supported f.encoding then encodings_ok supported formats else false

abbrev pub all_rates : (ℤ → Bool) → List ℤ → Bool
all_rates supported [] = true
all_rates supported (rate ∷ rates) = if supported rate then all_rates supported rates else false

abbrev pub rates_ok : (ℤ → Bool) → List Format → Bool
rates_ok supported [] = true
rates_ok supported (f ∷ formats) =
    if all_rates supported (get_or f.rates []) then rates_ok supported formats else false

-- Does each name have an entry?
abbrev pub all_known : {A : Type 0} → List (String × A) → List String → Bool
all_known rows [] = true
all_known rows (name ∷ names) = if is_some (lookup name rows) then all_known rows names else false

-- The use cases have the numbers from `n` on.
abbrev pub Numbered : ℕ → List (String × Usecase) → Type 0
Numbered n [] = Unit {0}
Numbered n ((k, u) ∷ rows) = (u.id ≡ n) × Numbered (suc n) rows

-- What a kind of use case supports: its encodings and its rates. The default encoding is one of them,
-- or the one that zeroed memory spells.
abbrev pub Supported : (Encoding → Bool) → (ℤ → Bool) → Usecase → Type 0
Supported encodings rates u =
    (encodings_ok encodings u.formats ≡ true)
    × (rates_ok rates u.formats ≡ true)
    × ((is_any u.default_encoding ≡ true) ⊎ (encodings u.default_encoding ≡ true))

abbrev pub UsecaseValid :
    (Encoding → Bool) → (ℤ → Bool) → List (String × Port) → String → Usecase → Type 0
UsecaseValid encodings rates ports k u =
    (u.name ≡ k) × Supported encodings rates u × (all_known ports u.ports ≡ true)

abbrev pub SinkValid : List (String × Port) → String → Usecase → Type 0
SinkValid ports k u = UsecaseValid is_supported_encoding (among supported_sink_rates) ports k u

abbrev pub SourceValid : List (String × Port) → String → Usecase → Type 0
SourceValid ports k u =
    UsecaseValid is_supported_source_encoding (among supported_source_rates) ports k u

abbrev pub PortValid : String → Port → Type 0
PortValid k u = u.name ≡ k

abbrev pub ProfileValid : List (String × Port) → String → Profile → Type 0
ProfileValid ports k u = (u.name ≡ k) × (all_known ports u.ports ≡ true)

abbrev pub LoopbackValid : List (String × Port) → String → Loopback → Type 0
LoopbackValid ports k u =
    (u.name ≡ k) × (all_known ports u.in_ports ≡ true) × (all_known ports u.out_ports ≡ true)

-- Every entry has the name that it is found by; sinks and sources are numbered from 1 in the order of
-- their sections, and have supported encodings and rates only; whatever lists ports lists ports of
-- the configuration.
pub record IsValid (c : ConfigData) : Type 0 where
  pub sinks_valid : Every (SinkValid c.ports) c.sinks
  pub sources_valid : Every (SourceValid c.ports) c.sources
  pub sinks_numbered : Numbered 1 c.sinks
  pub sources_numbered : Numbered 1 c.sources
  pub ports_valid : Every PortValid c.ports
  pub profiles_valid : Every (ProfileValid c.ports) c.profiles
  pub loopbacks_valid : Every (LoopbackValid c.ports) c.loopbacks

pub empty-IsValid : IsValid empty_config
empty-IsValid = record {
  sinks_valid = tt;
  sources_valid = tt;
  sinks_numbered = tt;
  sources_numbered = tt;
  ports_valid = tt;
  profiles_valid = tt;
  loopbacks_valid = tt;
}

-- A change of a use case that leaves its name, number and ports and supports no more than before.
abbrev pub UsecaseEdit : (Encoding → Bool) → (ℤ → Bool) → Edit Usecase → Type 0
UsecaseEdit encodings rates f =
    (u : Usecase)
    → ((f u).1.name ≡ u.name)
      × ((f u).1.id ≡ u.id)
      × ((f u).1.ports ≡ u.ports)
      × (Supported encodings rates u → Supported encodings rates (f u).1)

abbrev pub SinkEdit : Edit Usecase → Type 0
SinkEdit f = UsecaseEdit is_supported_encoding (among supported_sink_rates) f

abbrev pub SourceEdit : Edit Usecase → Type 0
SourceEdit f = UsecaseEdit is_supported_source_encoding (among supported_source_rates) f

abbrev pub PortEdit : Edit Port → Type 0
PortEdit f = (u : Port) → (f u).1.name ≡ u.name

abbrev pub stored_id : ℕ → Option Usecase → ℕ
stored_id n none = n
stored_id n (some u) = u.id

pub Numbered-put :
    (n : ℕ) (key : String) (v : Usecase) (rows : List (String × Usecase))
    → v.id ≡ stored_id (n + length rows) (lookup key rows)
    → Numbered n rows
    → Numbered n (put key v rows)
Numbered-put n key v [] e h = (omega arith, tt)
Numbered-put n key v ((k, w) ∷ rows) e h = elim (Bool-cases (str_eq k key)) [
  | inl q ↦ let f : v.id ≡ w.id = ground arith in rw q (f ∙ h.0, h.1)
  | inr q ↦
      let f : v.id ≡ stored_id (n + suc (length rows)) (lookup key rows) = ground arith in
      let g : n + suc (length rows) ≡ suc n + length rows = omega arith in
      rw q
        (h.0, Numbered-put (suc n) key v rows (f ∙ ap (λ m. stored_id m (lookup key rows)) g) h.1)
]

-- A port that is known stays known.
pub known-put :
    {A : Type 0} (key : String) (v : A) (rows : List (String × A)) (names : List String)
    → all_known rows names ≡ true
    → all_known (put key v rows) names ≡ true
known-put key v rows [] h = refl
known-put key v rows (name ∷ names) h =
    ground (arith, known-put key v rows names, lookup-put key name v rows)
