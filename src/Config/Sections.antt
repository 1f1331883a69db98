-- ===== src/Config/Sections.antt =====
-- The handlers of pal-config-parser.c that ports, profiles and loopbacks have too: descriptions,
-- priorities, keys, presence, channel limits, and the device, the direction, the node paths and the
-- format detection of a port.
use audioreach_pulseaudio_pl.Ports.{device_name_to_enum}
use audioreach_pulseaudio_pl.Config.Map.{lookup, put}
use audioreach_pulseaudio_pl.Config.{
  ConfigData, Loopback, Parser, Port, Profile, Usecase, available_no, available_unknown,
  available_yes, direction_input, direction_output,
}
use audioreach_pulseaudio_pl.Base.{
  Bool, List, Option, String, [], false, get_or, if◌then◌else◌, is_some, negsuc, none, not, pos,
  some, true, ℤ, ◌==◌, ◌∷◌,
}
use audioreach_pulseaudio_pl.Config.Entry.{
  Edit, edit_loopback, edit_port, edit_profile, edit_sink, edit_source, edit_usecase_or_port,
  else_try, or_fail,
}
use audioreach_pulseaudio_pl.Pal.{Device, device_none}
use text.Mathlib.Text.{◌==◌ as str_eq}

unfoldable pub parse_pal_devicepp_config : Parser → String → String → ConfigData → Bool × ConfigData
parse_pal_devicepp_config p section rvalue c =
    let edit : Edit Usecase = λ u. (true, record u { pal_devicepp_config = some rvalue }) in
    edit_usecase_or_port p section edit edit
      (λ (u : Port). (true, record u { pal_devicepp_config = some rvalue })) c

-- `port->available` for the three words.
abbrev pub set_available : String → Edit Port
set_available rvalue u =
    if str_eq rvalue "always"
    then (true, record u { available = available_yes })
    else if str_eq rvalue "dynamic"
    then (true, record u { available = available_no })
    else if str_eq rvalue "static"
    then (true, record u { available = available_unknown })
    else (false, u)

abbrev pub set_usecase_type : String → Edit Usecase
set_usecase_type rvalue u =
    if str_eq rvalue "always"
    then (true, record u { is_dynamic = false })
    else if str_eq rvalue "dynamic"
    then (true, record u { is_dynamic = true })
    else (false, u)

unfoldable pub parse_presence : Parser → String → String → ConfigData → Bool × ConfigData
parse_presence p section rvalue c =
    edit_usecase_or_port p section (set_usecase_type rvalue) (set_usecase_type rvalue)
      (set_available rvalue) c

unfoldable pub parse_description : Parser → String → String → ConfigData → Bool × ConfigData
parse_description p section rvalue c =
    let usecase : Edit Usecase = λ u. (true, record u { description = some rvalue }) in
    or_fail c (
      else_try
        (edit_profile section (λ (u : Profile). (true, record u { description = some rvalue })) c)
        (else_try
          (edit_port p section (λ (u : Port). (true, record u { description = some rvalue })) c)
          (else_try (edit_sink p section usecase c) (
            else_try (edit_source p section usecase c) (
              edit_loopback section
                (λ (u : Loopback). (true, record u { description = some rvalue })) c)))))

-- A text that is no number leaves the priority, and the handler returns 0 all the same.
unfoldable pub parse_priority : Parser → String → String → ConfigData → Bool × ConfigData
parse_priority p section rvalue c =
    let profile : Edit Profile =
      λ u. (true, record u { priority = get_or (p.atou rvalue) u.priority }) in
    let port : Edit Port = λ u. (true, record u { priority = get_or (p.atou rvalue) u.priority }) in
    or_fail c (else_try (edit_profile section profile c) (edit_port p section port c))

unfoldable pub parse_max_sink_channels : Parser → String → String → ConfigData → Bool × ConfigData
parse_max_sink_channels p section rvalue c = or_fail c (
    edit_profile section
      (λ (u : Profile). (
        is_some (p.atou rvalue),
        record u { max_sink_channels = get_or (p.atou rvalue) u.max_sink_channels },
      ))
      c)

unfoldable pub parse_max_source_channels : Parser → String → String → ConfigData → Bool × ConfigData
parse_max_source_channels p section rvalue c = or_fail c (
    edit_profile section
      (λ (u : Profile). (
        is_some (p.atou rvalue),
        record u { max_source_channels = get_or (p.atou rvalue) u.max_source_channels },
      ))
      c)

abbrev pub is_no_device : Device → Bool
is_no_device device_none = true
is_no_device _ = false

-- The device is stored, and PAL_DEVICE_NONE is an error then.
unfoldable pub parse_port_device : Parser → String → String → ConfigData → Bool × ConfigData
parse_port_device p section rvalue c =
    let device = device_name_to_enum rvalue in
    or_fail c (
      edit_port p section (λ (u : Port). (not (is_no_device device), record u { device = device }))
        c)

abbrev pub set_direction : String → Edit Port
set_direction rvalue u =
    if str_eq rvalue "in"
    then (true, record u { direction = direction_input })
    else if str_eq rvalue "out"
    then (true, record u { direction = direction_output })
    else (false, u)

unfoldable pub parse_port_direction : Parser → String → String → ConfigData → Bool × ConfigData
parse_port_direction p section rvalue c = or_fail c (edit_port p section (set_direction rvalue) c)

-- The fields by the keyword: a row for each branch.
abbrev pub node_path_fields : List (String × String)
node_path_fields =
    ("state-node-path", "state_node_path")
    ∷ ("sample-format-node-path", "sample_format_node_path")
    ∷ ("sample-rate-node-path", "sample_rate_node_path")
    ∷ ("sample-layout-node-path", "sample_layout_node_path")
    ∷ ("sample-channel-node-path", "sample_channel_node_path")
    ∷ ("sample-ch-alloc-node-path", "sample_channel_alloc_node_path")
    ∷ ("linkon0-node-path", "linkon0_node_path")
    ∷ ("poweron-node-path", "poweron_node_path")
    ∷ ("audio-path-node-path", "audio_path_node_path")
    ∷ ("arc-enable-node-path", "arc_enable_node_path")
    ∷ ("earc-enable-node-path", "earc_enable_node_path")
    ∷ ("arc-state-node-path", "arc_state_node_path")
    ∷ ("arc-sample-format-node-path", "arc_sample_format_node_path")
    ∷ ("arc-sample-rate-node-path", "arc_sample_rate_node_path")
    ∷ ("audio-preemph-node-path", "audio_preemph_node_path")
    ∷ ("arc-audio-preemph-node-path", "arc_audio_preemph_node_path")
    ∷ ("dsd-rate-node-path", "dsd_rate_node_path")
    ∷ ("hdmi-tx-state", "hdmi_tx_state_path")
    ∷ ("channel-status-node-path", "channel_status_path")
    ∷ []

abbrev pub set_node_path : Option String → String → Edit Port
set_node_path none rvalue u = (false, u)
set_node_path (some field) rvalue u =
    (true, record u { node_paths = put field rvalue u.node_paths })

-- `lvalue` is the keyword of the line.
unfoldable pub parse_port_sys_path :
    String → Parser → String → String → ConfigData → Bool × ConfigData
parse_port_sys_path lvalue p section rvalue c =
    or_fail c (edit_port p section (set_node_path (lookup lvalue node_path_fields) rvalue) c)

abbrev pub set_format_detection : ℤ → Edit Port
set_format_detection (pos n) u = (true, record u { format_detection = not (n == 0) })
set_format_detection (negsuc n) u = (false, u)

unfoldable pub parse_port_format_detection :
    Parser → String → String → ConfigData → Bool × ConfigData
parse_port_format_detection p section rvalue c =
    or_fail c (edit_port p section (set_format_detection (p.parse_boolean rvalue)) c)
