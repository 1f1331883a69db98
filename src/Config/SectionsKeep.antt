-- ===== src/Config/SectionsKeep.antt =====
-- That the handlers of pal-config-parser.c for ports, profiles and loopbacks keep what holds of the
-- data.
use audioreach_pulseaudio_pl.Config.Map.{lookup}
use audioreach_pulseaudio_pl.Ports.{device_name_to_enum}
use audioreach_pulseaudio_pl.Config.Handlers.{SameUsecase, same-UsecaseEdit, same_or_port-IsValid}
use audioreach_pulseaudio_pl.Config.Invariant.{IsValid, PortEdit}
use audioreach_pulseaudio_pl.Config.{ConfigData, Loopback, Parser, Port, Profile, Usecase}
use audioreach_pulseaudio_pl.Config.Entry.{
  Edit, edit_loopback, edit_port, edit_profile, edit_sink, edit_source, else_try, or_fail,
}
use audioreach_pulseaudio_pl.Sink.Rates.{supported_sink_rates}
use audioreach_pulseaudio_pl.Config.Keeps.{ProfileEdit, else-Kept, or_fail-IsValid}
use audioreach_pulseaudio_pl.Config.Chains.{
  HandlerKeeps, loopback_chain, port_chain, profile_chain, sink_chain, source_chain,
}
use audioreach_pulseaudio_pl.Config.Formats.{among}
use audioreach_pulseaudio_pl.Source.Rates.{is_supported_source_encoding, supported_source_rates}
use audioreach_pulseaudio_pl.Base.{
  Option, String, arith, get_or, is_some, negsuc, none, not, pos, refl, some, true, ℤ,
}
use audioreach_pulseaudio_pl.Config.Sections.{
  is_no_device, node_path_fields, parse_description, parse_max_sink_channels,
  parse_max_source_channels, parse_pal_devicepp_config, parse_port_device, parse_port_direction,
  parse_port_format_detection, parse_port_sys_path, parse_presence, parse_priority, set_available,
  set_direction, set_format_detection, set_node_path, set_usecase_type,
}
use audioreach_pulseaudio_pl.Formats.{is_supported_encoding}

pub parse_pal_devicepp_config-IsValid : HandlerKeeps parse_pal_devicepp_config
unfolding parse_pal_devicepp_config
parse_pal_devicepp_config-IsValid p section rvalue c v =
    let edit : Edit Usecase = λ u. (true, record u { pal_devicepp_config = some rvalue }) in
    same_or_port-IsValid p section edit edit
      (λ u. (true, record u { pal_devicepp_config = some rvalue })) c
      (λ u. (refl, refl, refl, refl, refl)) (λ u. (refl, refl, refl, refl, refl)) (λ u. refl) v

set_usecase_type-SameUsecase : (rvalue : String) → SameUsecase (set_usecase_type rvalue)
set_usecase_type-SameUsecase rvalue u = ground arith

set_available-PortEdit : (rvalue : String) → PortEdit (set_available rvalue)
set_available-PortEdit rvalue u = ground arith

pub parse_presence-IsValid : HandlerKeeps parse_presence
unfolding parse_presence
parse_presence-IsValid p section rvalue c v =
    same_or_port-IsValid p section (set_usecase_type rvalue) (set_usecase_type rvalue)
      (set_available rvalue) c (set_usecase_type-SameUsecase rvalue)
      (set_usecase_type-SameUsecase rvalue) (set_available-PortEdit rvalue) v

pub parse_description-IsValid : HandlerKeeps parse_description
unfolding parse_description
parse_description-IsValid p section rvalue c v =
    let usecase : Edit Usecase = λ u. (true, record u { description = some rvalue }) in
    let profile : Edit Profile = λ u. (true, record u { description = some rvalue }) in
    let port : Edit Port = λ u. (true, record u { description = some rvalue }) in
    let loopback : Edit Loopback = λ u. (true, record u { description = some rvalue }) in
    let same : SameUsecase usecase = λ u. (refl, refl, refl, refl, refl) in
    let e = edit_loopback section loopback c in
    let d = edit_source p section usecase c in
    let b = edit_sink p section usecase c in
    let a = edit_port p section port c in
    let o = edit_profile section profile c in
    or_fail-IsValid c (else_try o (else_try a (else_try b (else_try d e)))) v (
      else-Kept o (else_try a (else_try b (else_try d e)))
        (profile_chain section profile c (λ u. (refl, λ h. h)) v)
        (else-Kept a (else_try b (else_try d e)) (port_chain p section port c (λ u. refl) v) (
          else-Kept b (else_try d e)
            (sink_chain p section usecase c
              (same-UsecaseEdit is_supported_encoding (among supported_sink_rates) usecase same) v)
            (else-Kept d e
              (source_chain p section usecase c
                (same-UsecaseEdit is_supported_source_encoding (among supported_source_rates)
                  usecase same)
                v)
              (loopback_chain section loopback c (λ u. (refl, λ h k. (h, k))) v)))))

pub parse_priority-IsValid : HandlerKeeps parse_priority
unfolding parse_priority
parse_priority-IsValid p section rvalue c v =
    let profile : Edit Profile =
      λ u. (true, record u { priority = get_or (p.atou rvalue) u.priority }) in
    let port : Edit Port = λ u. (true, record u { priority = get_or (p.atou rvalue) u.priority }) in
    or_fail-IsValid c (else_try (edit_profile section profile c) (edit_port p section port c)) v (
      else-Kept (edit_profile section profile c) (edit_port p section port c)
        (profile_chain section profile c (λ u. (refl, λ h. h)) v)
        (port_chain p section port c (λ u. refl) v))

profile_only-IsValid :
    (section : String) (f : Edit Profile) (c : ConfigData)
    → ProfileEdit c.ports f
    → IsValid c
    → IsValid (or_fail c (edit_profile section f c)).1
profile_only-IsValid section f c e v =
    or_fail-IsValid c (edit_profile section f c) v (profile_chain section f c e v)

port_only-IsValid :
    (p : Parser) (section : String) (f : Edit Port) (c : ConfigData)
    → PortEdit f
    → IsValid c
    → IsValid (or_fail c (edit_port p section f c)).1
port_only-IsValid p section f c e v =
    or_fail-IsValid c (edit_port p section f c) v (port_chain p section f c e v)

pub parse_max_sink_channels-IsValid : HandlerKeeps parse_max_sink_channels
unfolding parse_max_sink_channels
parse_max_sink_channels-IsValid p section rvalue c v =
    profile_only-IsValid section
      (λ u. (
        is_some (p.atou rvalue),
        record u { max_sink_channels = get_or (p.atou rvalue) u.max_sink_channels },
      ))
      c (λ u. (refl, λ h. h)) v

pub parse_max_source_channels-IsValid : HandlerKeeps parse_max_source_channels
unfolding parse_max_source_channels
parse_max_source_channels-IsValid p section rvalue c v =
    profile_only-IsValid section
      (λ u. (
        is_some (p.atou rvalue),
        record u { max_source_channels = get_or (p.atou rvalue) u.max_source_channels },
      ))
      c (λ u. (refl, λ h. h)) v

pub parse_port_device-IsValid : HandlerKeeps parse_port_device
unfolding parse_port_device
parse_port_device-IsValid p section rvalue c v =
    port_only-IsValid p section
      (λ u. (
        not (is_no_device (device_name_to_enum rvalue)),
        record u { device = device_name_to_enum rvalue },
      ))
      c (λ u. refl) v

set_direction-PortEdit : (rvalue : String) → PortEdit (set_direction rvalue)
set_direction-PortEdit rvalue u = ground arith

pub parse_port_direction-IsValid : HandlerKeeps parse_port_direction
unfolding parse_port_direction
parse_port_direction-IsValid p section rvalue c v =
    port_only-IsValid p section (set_direction rvalue) c (set_direction-PortEdit rvalue) v

set_node_path-PortEdit :
    (field : Option String) (rvalue : String) → PortEdit (set_node_path field rvalue)
set_node_path-PortEdit none rvalue u = refl
set_node_path-PortEdit (some field) rvalue u = refl

pub parse_port_sys_path-IsValid : (lvalue : String) → HandlerKeeps (parse_port_sys_path lvalue)
unfolding parse_port_sys_path
parse_port_sys_path-IsValid lvalue p section rvalue c v =
    let field = lookup lvalue node_path_fields in
    port_only-IsValid p section (set_node_path field rvalue) c (set_node_path-PortEdit field rvalue)
      v

set_format_detection-PortEdit : (read : ℤ) → PortEdit (set_format_detection read)
set_format_detection-PortEdit (pos n) u = refl
set_format_detection-PortEdit (negsuc n) u = refl

pub parse_port_format_detection-IsValid : HandlerKeeps parse_port_format_detection
unfolding parse_port_format_detection
parse_port_format_detection-IsValid p section rvalue c v =
    port_only-IsValid p section (set_format_detection (p.parse_boolean rvalue)) c
      (set_format_detection-PortEdit (p.parse_boolean rvalue)) v
