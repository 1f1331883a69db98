-- ===== src/Config/NamesKeep.antt =====
-- That `pa_pal_config_parse_port_names` of pal-config-parser.c keeps what holds of the data.
use audioreach_pulseaudio_pl.Config.Formats.{among}
use audioreach_pulseaudio_pl.Sink.Rates.{supported_sink_rates}
use audioreach_pulseaudio_pl.Config.Chains.{HandlerKeeps, loopback_chain, profile_chain}
use audioreach_pulseaudio_pl.Formats.{Encoding, is_supported_encoding}
use audioreach_pulseaudio_pl.Source.Rates.{is_supported_source_encoding, supported_source_rates}
use audioreach_pulseaudio_pl.Config.Entry.{
  after_prefix, edit_loopback, edit_profile, else_try, get_usecase,
}
use audioreach_pulseaudio_pl.Config.Keeps.{
  Kept, LoopbackEdit, ProfileEdit, else-Kept, found_id, found_valid, or_fail-IsValid,
}
use audioreach_pulseaudio_pl.Config.{Port, Profile, ConfigData, Loopback, Parser, Usecase}
use audioreach_pulseaudio_pl.Config.Map.{Every, lookup, Every-put}
use audioreach_pulseaudio_pl.Config.Invariant.{
  ProfileValid, all_known, IsValid, Numbered-put, SinkValid, SourceValid, Supported,
}
use audioreach_pulseaudio_pl.Config.Names.{
  Links, add_name, add_usecase_ports, counted, link_profiles, mem_name, add_loopback_ports,
  add_profile_ports, is_input_port, loopback_ports, parse_port_names, profile_ports,
  sink_port_names, source_port_names, usecase_ports, with_loopback_port, with_port,
}
use audioreach_pulseaudio_pl.Base.{
  Bool, Bool-cases, List, Option, String, [], arith, if◌then◌else◌, inl, inr, is_some, none, not,
  refl, some, true, ◌&&◌, ◌++◌, ◌∷◌, ◌≡◌, false, length, ℤ, ◌∙◌,
}
use mathlib.Core.Path.{ap}

all_known-append :
    {A : Type 0} (rows : List (String × A)) (a b : List String)
    → all_known rows a ≡ true
    → all_known rows b ≡ true
    → all_known rows (a ++ b) ≡ true
all_known-append rows [] b h k = k
all_known-append rows (x ∷ a) b h k = ground (arith, all_known-append rows a b)

pub add_name-known :
    {A : Type 0} (rows : List (String × A)) (name : String) (names : List String)
    → is_some (lookup name rows) ≡ true
    → all_known rows names ≡ true
    → all_known rows (add_name name names) ≡ true
add_name-known rows name names e h = elim (Bool-cases (mem_name name names)) [
  | inl q ↦ rw q h
  | inr q ↦
      let k : all_known rows (name ∷ []) ≡ true = rw e refl in
      rw q (all_known-append rows names (name ∷ []) h k)
]

-- The counts of a profile are no part of its validity.
link_profiles-valid :
    (is_sink : Bool) (port : String) (ports : List (String × Port)) (names : List String)
    (rows : List (String × Profile))
    → Every (ProfileValid ports) rows
    → Every (ProfileValid ports) (link_profiles is_sink port names rows).1
unfolding link_profiles
link_profiles-valid is_sink port ports names [] h = tt
link_profiles-valid is_sink port ports names ((key, profile) ∷ rows) h =
    let linked = mem_name port profile.ports && not (mem_name profile.name names) in
    let names' = if linked then names ++ (profile.name ∷ []) else names in
    (counted_valid linked, link_profiles-valid is_sink port ports names' rows h.1)
  where
    counted_valid :
        (linked : Bool)
        → ProfileValid ports key (if linked then counted is_sink profile else profile)
    counted_valid linked = ground (arith, h.0)

-- The loop over the words leaves known ports, and valid profiles.
abbrev LinksValid : List (String × Port) → Links → Type 0
LinksValid known (ports, names, profiles) =
    (all_known known ports ≡ true) × Every (ProfileValid known) profiles

with_port-valid :
    (is_sink : Bool) (known : List (String × Port)) (name : String) (o : Option Port)
    (links : Links)
    → lookup name known ≡ o
    → LinksValid known links
    → LinksValid known (with_port is_sink name o links)
with_port-valid is_sink known name none links e h = h
with_port-valid is_sink known name (some port) (ports, names, profiles) e h = (
  add_name-known known name ports (ap is_some e) h.0,
  link_profiles-valid is_sink port.name known names profiles h.1,
)

add_usecase_ports-valid :
    (is_sink : Bool) (known : List (String × Port)) (items : List String) (links : Links)
    → LinksValid known links
    → LinksValid known (add_usecase_ports is_sink known items links).1
unfolding add_usecase_ports
add_usecase_ports-valid is_sink known [] links h = h
add_usecase_ports-valid is_sink known (name ∷ items) links h =
    let o = lookup name known in
    let k =
      add_usecase_ports-valid is_sink known items (with_port is_sink name o links)
        (with_port-valid is_sink known name o links refl h) in
    elim (Bool-cases (is_some o)) [ inl e ↦ rw e k | inr e ↦ rw e h ]

-- A use case in the data, and the profiles, after the loop.
abbrev UsecasePortsValid :
    (Encoding → Bool)
    → (ℤ → Bool)
    → List (String × Port)
    → Usecase
    → Bool × Usecase × List (String × Profile)
    → Type 0
UsecasePortsValid encodings rates known u (ok, u', profiles) =
    (u'.name ≡ u.name)
    × (u'.id ≡ u.id)
    × (Supported encodings rates u → Supported encodings rates u')
    × (all_known known u'.ports ≡ true)
    × Every (ProfileValid known) profiles

usecase_ports-valid :
    (encodings : Encoding → Bool) (rates : ℤ → Bool) (is_sink : Bool) (known : List (String × Port))
    (profiles : List (String × Profile)) (items : Option (List String)) (u : Usecase)
    → all_known known u.ports ≡ true
    → Every (ProfileValid known) profiles
    → UsecasePortsValid encodings rates known u (usecase_ports is_sink known profiles items u)
usecase_ports-valid encodings rates is_sink known profiles none u h k = (refl, refl, λ s. s, h, k)
usecase_ports-valid encodings rates is_sink known profiles (some items) u h k =
    let l = add_usecase_ports-valid is_sink known items (u.ports, u.profiles, profiles) (h, k) in
    (refl, refl, λ s. s, l.0, l.1)

sink_port_names-Kept :
    (p : Parser) (items : Option (List String)) (c : ConfigData) (o : Option String)
    → IsValid c
    → Kept (sink_port_names p items c o)
sink_port_names-Kept p items c none v = tt
sink_port_names-Kept p items c (some name) v =
    let u = get_usecase p name c.sinks in
    let w =
      found_valid p is_supported_encoding (among supported_sink_rates) c.ports name c.sinks
        (lookup name c.sinks) refl v.sinks_valid in
    let k =
      usecase_ports-valid is_supported_encoding (among supported_sink_rates) true c.ports c.profiles
        items u w.2 v.profiles_valid in
    let u' = (usecase_ports true c.ports c.profiles items u).1 in
    record {
      sinks_valid =
          Every-put (SinkValid c.ports) name u' c.sinks (k.0 ∙ w.0, k.2 w.1, k.3) v.sinks_valid;
      sources_valid = v.sources_valid;
      sinks_numbered =
          Numbered-put 1 name u' c.sinks
            (k.1 ∙ found_id p name (length c.sinks) (lookup name c.sinks)) v.sinks_numbered;
      sources_numbered = v.sources_numbered;
      ports_valid = v.ports_valid;
      profiles_valid = k.4;
      loopbacks_valid = v.loopbacks_valid;
    }

source_port_names-Kept :
    (p : Parser) (items : Option (List String)) (c : ConfigData) (o : Option String)
    → IsValid c
    → Kept (source_port_names p items c o)
source_port_names-Kept p items c none v = tt
source_port_names-Kept p items c (some name) v =
    let u = get_usecase p name c.sources in
    let w =
      found_valid p is_supported_source_encoding (among supported_source_rates) c.ports name
        c.sources (lookup name c.sources) refl v.sources_valid in
    let k =
      usecase_ports-valid is_supported_source_encoding (among supported_source_rates) false c.ports
        c.profiles items u w.2 v.profiles_valid in
    let u' = (usecase_ports false c.ports c.profiles items u).1 in
    record {
      sinks_valid = v.sinks_valid;
      sources_valid =
          Every-put (SourceValid c.ports) name u' c.sources (k.0 ∙ w.0, k.2 w.1, k.3)
            v.sources_valid;
      sinks_numbered = v.sinks_numbered;
      sources_numbered =
          Numbered-put 1 name u' c.sources
            (k.1 ∙ found_id p name (length c.sources) (lookup name c.sources)) v.sources_numbered;
      ports_valid = v.ports_valid;
      profiles_valid = k.4;
      loopbacks_valid = v.loopbacks_valid;
    }

add_profile_ports-known :
    (known : List (String × Port)) (items ports : List String)
    → all_known known ports ≡ true
    → all_known known (add_profile_ports known items ports).1 ≡ true
unfolding add_profile_ports
add_profile_ports-known known [] ports h = h
add_profile_ports-known known (name ∷ items) ports h =
    elim (Bool-cases (is_some (lookup name known))) [
      | inl e ↦ rw e (
          add_profile_ports-known known items (add_name name ports)
            (add_name-known known name ports e h))
      | inr e ↦ rw e h
    ]

profile_ports-ProfileEdit :
    (known : List (String × Port)) (items : Option (List String))
    → ProfileEdit known (profile_ports known items)
profile_ports-ProfileEdit known none u = (refl, λ h. h)
profile_ports-ProfileEdit known (some items) u = (refl, add_profile_ports-known known items u.ports)

abbrev LoopbackKnown : List (String × Port) → Loopback → Loopback → Type 0
LoopbackKnown known u u' =
    (u'.name ≡ u.name)
    × (all_known known u'.in_ports ≡ true)
    × (all_known known u'.out_ports ≡ true)

with_loopback_port-known :
    (known : List (String × Port)) (words : List String) (name : String) (o : Option Port)
    (u : Loopback)
    → lookup name known ≡ o
    → all_known known u.in_ports ≡ true
    → all_known known u.out_ports ≡ true
    → LoopbackKnown known u (with_loopback_port words name o u)
with_loopback_port-known known words name none u e h k = (refl, h, k)
with_loopback_port-known known words name (some port) u e h k =
    let a = add_name-known known name u.in_ports (ap is_some e) h in
    let b = add_name-known known name u.out_ports (ap is_some e) k in
    elim (Bool-cases (is_input_port port.direction)) [
      | inl q ↦ rw q (refl, a, k)
      | inr q ↦ rw q (refl, h, b)
    ]

add_loopback_ports-known :
    (known : List (String × Port)) (words items : List String) (u : Loopback)
    → all_known known u.in_ports ≡ true
    → all_known known u.out_ports ≡ true
    → LoopbackKnown known u (add_loopback_ports known words items u).1
unfolding add_loopback_ports
add_loopback_ports-known known words [] u h k = (refl, h, k)
add_loopback_ports-known known words (name ∷ items) u h k =
    let o = lookup name known in
    let a = with_loopback_port-known known words name o u refl h k in
    let b =
      add_loopback_ports-known known words items (with_loopback_port words name o u) a.1 a.2 in
    let rest = add_loopback_ports known words items (with_loopback_port words name o u) in
    elim (Bool-cases (is_some o)) [ inl e ↦ rw e (b.0 ∙ a.0, b.1, b.2) | inr e ↦ rw e (refl, h, k) ]

with_loopback_port-name :
    (words : List String) (name : String) (o : Option Port) (u : Loopback)
    → (with_loopback_port words name o u).name ≡ u.name
with_loopback_port-name words name none u = refl
with_loopback_port-name words name (some port) u = ground arith

add_loopback_ports-name :
    (known : List (String × Port)) (words items : List String) (u : Loopback)
    → (add_loopback_ports known words items u).1.name ≡ u.name
unfolding add_loopback_ports
add_loopback_ports-name known words [] u = refl
add_loopback_ports-name known words (name ∷ items) u =
    let o = lookup name known in
    let a = with_loopback_port-name words name o u in
    let b = add_loopback_ports-name known words items (with_loopback_port words name o u) in
    elim (Bool-cases (is_some o)) [ inl e ↦ rw e (b ∙ a) | inr e ↦ rw e refl ]

loopback_ports-LoopbackEdit :
    (known : List (String × Port)) (items : Option (List String))
    → LoopbackEdit known (loopback_ports known items)
loopback_ports-LoopbackEdit known none u = (refl, λ h k. (h, k))
loopback_ports-LoopbackEdit known (some items) u = (
  add_loopback_ports-name known items items u,
  λ h k. let a = add_loopback_ports-known known items items u h k in (a.1, a.2),
)

pub parse_port_names-IsValid : HandlerKeeps parse_port_names
unfolding parse_port_names
parse_port_names-IsValid p section rvalue c v =
    let items = p.split_spaces rvalue in
    let profile = edit_profile section (profile_ports c.ports items) c in
    let sink = sink_port_names p items c (after_prefix "Sink " section) in
    let source = source_port_names p items c (after_prefix "Source " section) in
    let loopback = edit_loopback section (loopback_ports c.ports items) c in
    or_fail-IsValid c (else_try profile (else_try sink (else_try source loopback))) v (
      else-Kept profile (else_try sink (else_try source loopback))
        (profile_chain section (profile_ports c.ports items) c
          (profile_ports-ProfileEdit c.ports items) v)
        (else-Kept sink (else_try source loopback)
          (sink_port_names-Kept p items c (after_prefix "Sink " section) v)
          (else-Kept source loopback
            (source_port_names-Kept p items c (after_prefix "Source " section) v)
            (loopback_chain section (loopback_ports c.ports items) c
              (loopback_ports-LoopbackEdit c.ports items) v))))
