-- ===== src/Config/Entry.antt =====
-- The sections of the configuration (`pa_pal_config_get_sink`, `_source`, `_port`, `_profile` and
-- `_loopback` of pal-config-parser.c): each test of a section's name that succeeds finds the entry, or
-- makes it, and the handler changes it through the pointer.
use audioreach_pulseaudio_pl.Config.{
  ConfigData, Loopback, Parser, Port, Profile, Usecase, new_loopback, new_port, new_profile,
  new_usecase,
}
use audioreach_pulseaudio_pl.Config.Map.{lookup, put}
use audioreach_pulseaudio_pl.Base.{
  Bool, List, Option, String, false, get_or, if◌then◌else◌, length, none, some, suc,
}
use text.Mathlib.Text.{starts_with}
use Prim.Native.String.{slice, len}

-- What a handler does to its entry: whether it returned 0, and the entry.
abbrev pub Edit : Type 0 → Type 0
Edit A = A → Bool × A

-- `pa_startswith`, and the text from after the prefix.
unfoldable pub after_prefix : String → String → Option String
after_prefix prefix section =
    if starts_with section prefix then some (slice section (len prefix) (len section)) else none

abbrev pub get_usecase : Parser → String → List (String × Usecase) → Usecase
get_usecase p name rows = get_or (lookup name rows) (new_usecase p name (suc (length rows)))

abbrev pub get_port : Parser → String → List (String × Port) → Port
get_port p name rows = get_or (lookup name rows) (new_port p name)

abbrev pub get_profile : String → List (String × Profile) → Profile
get_profile name rows = get_or (lookup name rows) (new_profile name)

abbrev pub get_loopback : String → List (String × Loopback) → Loopback
get_loopback name rows = get_or (lookup name rows) (new_loopback name)

abbrev pub edit_sink_named :
    Parser → Edit Usecase → ConfigData → Option String → Option (Bool × ConfigData)
edit_sink_named p f c none = none
edit_sink_named p f c (some name) =
    let (ok, u) = f (get_usecase p name c.sinks) in
    some (ok, record c { sinks = put name u c.sinks })

abbrev pub edit_source_named :
    Parser → Edit Usecase → ConfigData → Option String → Option (Bool × ConfigData)
edit_source_named p f c none = none
edit_source_named p f c (some name) =
    let (ok, u) = f (get_usecase p name c.sources) in
    some (ok, record c { sources = put name u c.sources })

abbrev pub edit_port_named :
    Parser → Edit Port → ConfigData → Option String → Option (Bool × ConfigData)
edit_port_named p f c none = none
edit_port_named p f c (some name) =
    let (ok, u) = f (get_port p name c.ports) in some (ok, record c { ports = put name u c.ports })

abbrev pub edit_profile_named :
    Edit Profile → ConfigData → Option String → Option (Bool × ConfigData)
edit_profile_named f c none = none
edit_profile_named f c (some name) =
    let (ok, u) = f (get_profile name c.profiles) in
    some (ok, record c { profiles = put name u c.profiles })

abbrev pub edit_loopback_named :
    Edit Loopback → ConfigData → Option String → Option (Bool × ConfigData)
edit_loopback_named f c none = none
edit_loopback_named f c (some name) =
    let (ok, u) = f (get_loopback name c.loopbacks) in
    some (ok, record c { loopbacks = put name u c.loopbacks })

-- None where the section is none of the kind.
unfoldable pub edit_sink : Parser → String → Edit Usecase → ConfigData → Option (Bool × ConfigData)
edit_sink p section f c = edit_sink_named p f c (after_prefix "Sink " section)

unfoldable pub edit_source :
    Parser → String → Edit Usecase → ConfigData → Option (Bool × ConfigData)
edit_source p section f c = edit_source_named p f c (after_prefix "Source " section)

unfoldable pub edit_port : Parser → String → Edit Port → ConfigData → Option (Bool × ConfigData)
edit_port p section f c = edit_port_named p f c (after_prefix "Port " section)

unfoldable pub edit_profile : String → Edit Profile → ConfigData → Option (Bool × ConfigData)
edit_profile section f c = edit_profile_named f c (after_prefix "Profile " section)

unfoldable pub edit_loopback : String → Edit Loopback → ConfigData → Option (Bool × ConfigData)
edit_loopback section f c = edit_loopback_named f c (after_prefix "Loopback " section)

-- The next branch of an `else if` chain.
abbrev pub else_try {ℓ} : {A : Type ℓ} → Option A → Option A → Option A
else_try none other = other
else_try (some a) other = some a

-- The last branch: an invalid section changes nothing and fails.
abbrev pub or_fail : ConfigData → Option (Bool × ConfigData) → Bool × ConfigData
or_fail c none = (false, c)
or_fail c (some r) = r

-- The chains that the handlers share: sinks and sources, and these and ports.
unfoldable pub edit_usecase :
    Parser → String → Edit Usecase → Edit Usecase → ConfigData → Bool × ConfigData
edit_usecase p section sink source c =
    or_fail c (else_try (edit_sink p section sink c) (edit_source p section source c))

unfoldable pub edit_usecase_or_port :
    Parser → String → Edit Usecase → Edit Usecase → Edit Port → ConfigData → Bool × ConfigData
edit_usecase_or_port p section sink source port c = or_fail c (
    else_try (edit_sink p section sink c)
      (else_try (edit_source p section source c) (edit_port p section port c)))
