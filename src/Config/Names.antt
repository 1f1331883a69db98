-- ===== src/Config/Names.antt =====
-- `pa_pal_config_parse_port_names` of pal-config-parser.c: the ports of a profile, a sink, a source or a
-- loopback, and the profiles that a sink or a source comes to belong to.
--
-- A name that the configuration has no port for ends the loop: the code frees the list of words, which
-- `port_conf_string` still points to.
use audioreach_pulseaudio_pl.Config.Map.{lookup, put}
use audioreach_pulseaudio_pl.Config.{
  ConfigData, Loopback, Parser, Port, PortDirection, Profile, Usecase, direction_input,
}
use audioreach_pulseaudio_pl.Base.{
  Bool, List, Option, String, [], false, if◌then◌else◌, is_some, none, not, some, true, ◌&&◌, ◌++◌,
  ◌+◌, ◌∷◌,
}
use audioreach_pulseaudio_pl.Config.Entry.{
  Edit, after_prefix, edit_loopback, edit_profile, else_try, get_usecase, or_fail,
}
use text.Mathlib.Text.{◌==◌ as str_eq}

abbrev pub mem_name : String → List String → Bool
mem_name name [] = false
mem_name name (x ∷ xs) = if str_eq x name then true else mem_name name xs

-- `pa_hashmap_put` of a pointer: a name that is there stays.
abbrev pub add_name : String → List String → List String
add_name name names = if mem_name name names then names else names ++ (name ∷ [])

-- The loop over the profiles for one port: a profile with the port that the use case does not have yet
-- is added to it, and its count goes up.
abbrev pub counted : Bool → Profile → Profile
counted is_sink profile =
    if is_sink
    then record profile { n_sinks = profile.n_sinks + 1 }
    else record profile { n_sources = profile.n_sources + 1 }

unfoldable pub link_profiles :
    Bool → String → List String → List (String × Profile) → List String × List (String × Profile)
link_profiles is_sink port names [] = (names, [])
link_profiles is_sink port names ((key, profile) ∷ rows) =
    let linked = mem_name port profile.ports && not (mem_name profile.name names) in
    let names' = if linked then names ++ (profile.name ∷ []) else names in
    let profile' = if linked then counted is_sink profile else profile in
    let (result, rows') = link_profiles is_sink port names' rows in
    (result, (key, profile') ∷ rows')

-- The ports, the profiles of the use case, and the profiles of the configuration.
abbrev pub Links : Type 0
Links = List String × List String × List (String × Profile)

abbrev pub link_port : Bool → String → Port → Links → Links
link_port is_sink name port (ports, names, profiles) =
    let (names', profiles') = link_profiles is_sink port.name names profiles in
    (add_name name ports, names', profiles')

abbrev pub with_port : Bool → String → Option Port → Links → Links
with_port is_sink name none links = links
with_port is_sink name (some port) links = link_port is_sink name port links

-- The loop over the words for a sink or a source.
unfoldable pub add_usecase_ports : Bool → List (String × Port) → List String → Links → Bool × Links
add_usecase_ports is_sink known [] links = (true, links)
add_usecase_ports is_sink known (name ∷ items) links =
    let rest =
      add_usecase_ports is_sink known items (with_port is_sink name (lookup name known) links) in
    if is_some (lookup name known) then rest else (false, links)

abbrev pub usecase_ports :
    Bool
    → List (String × Port)
    → List (String × Profile)
    → Option (List String)
    → Usecase
    → Bool × Usecase × List (String × Profile)
usecase_ports is_sink known profiles none u =
    (false, record u { port_conf_string = none }, profiles)
usecase_ports is_sink known profiles (some items) u =
    let (ok, (ports, names, profiles')) =
      add_usecase_ports is_sink known items (u.ports, u.profiles, profiles) in
    (ok, record u { port_conf_string = some items; ports = ports; profiles = names }, profiles')

-- The loop for a profile.
unfoldable pub add_profile_ports :
    List (String × Port) → List String → List String → Bool × List String
add_profile_ports known [] ports = (true, ports)
add_profile_ports known (name ∷ items) ports =
    let rest = add_profile_ports known items (add_name name ports) in
    if is_some (lookup name known) then rest else (false, ports)

abbrev pub profile_ports : List (String × Port) → Option (List String) → Edit Profile
profile_ports known none u = (false, record u { port_conf_string = none })
profile_ports known (some items) u =
    let (ok, ports) = add_profile_ports known items u.ports in
    (ok, record u { port_conf_string = some items; ports = ports })

-- A loopback has two maps, by the direction of the port; the list of words is kept for each when its
-- first port comes.
abbrev pub is_input_port : PortDirection → Bool
is_input_port direction_input = true
is_input_port _ = false

abbrev pub kept : Option (List String) → List String → Option (List String)
kept none items = some items
kept (some old) items = some old

abbrev pub loopback_port : List String → String → Port → Loopback → Loopback
loopback_port items name port u =
    if is_input_port port.direction
    then record u {
      in_port_conf_string = kept u.in_port_conf_string items;
      in_ports = add_name name u.in_ports;
    }
    else record u {
      out_port_conf_string = kept u.out_port_conf_string items;
      out_ports = add_name name u.out_ports;
    }

abbrev pub with_loopback_port : List String → String → Option Port → Loopback → Loopback
with_loopback_port words name none u = u
with_loopback_port words name (some port) u = loopback_port words name port u

unfoldable pub add_loopback_ports :
    List (String × Port) → List String → List String → Loopback → Bool × Loopback
add_loopback_ports known words [] u = (true, u)
add_loopback_ports known words (name ∷ items) u =
    let rest =
      add_loopback_ports known words items (with_loopback_port words name (lookup name known) u) in
    if is_some (lookup name known) then rest else (false, u)

abbrev pub loopback_ports : List (String × Port) → Option (List String) → Edit Loopback
loopback_ports known none u = (false, u)
loopback_ports known (some items) u = add_loopback_ports known items items u

abbrev pub sink_port_names :
    Parser → Option (List String) → ConfigData → Option String → Option (Bool × ConfigData)
sink_port_names p items c none = none
sink_port_names p items c (some name) =
    let (ok, u, profiles) =
      usecase_ports true c.ports c.profiles items (get_usecase p name c.sinks) in
    some (ok, record c { sinks = put name u c.sinks; profiles = profiles })

abbrev pub source_port_names :
    Parser → Option (List String) → ConfigData → Option String → Option (Bool × ConfigData)
source_port_names p items c none = none
source_port_names p items c (some name) =
    let (ok, u, profiles) =
      usecase_ports false c.ports c.profiles items (get_usecase p name c.sources) in
    some (ok, record c { sources = put name u c.sources; profiles = profiles })

unfoldable pub parse_port_names : Parser → String → String → ConfigData → Bool × ConfigData
parse_port_names p section rvalue c =
    let items = p.split_spaces rvalue in
    or_fail c (
      else_try (edit_profile section (profile_ports c.ports items) c) (
        else_try (sink_port_names p items c (after_prefix "Sink " section)) (
          else_try (source_port_names p items c (after_prefix "Source " section))
            (edit_loopback section (loopback_ports c.ports items) c))))
