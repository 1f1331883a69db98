-- ===== src/Config/Lines.antt =====
-- The lines of a configuration, one handler of pal-config-parser.c after another.
use audioreach_pulseaudio_pl.Config.{ConfigData, Parser}
use audioreach_pulseaudio_pl.Config.Map.{Every, Every-lookup, lookup}
use audioreach_pulseaudio_pl.Config.NamesKeep.{parse_port_names-IsValid}
use audioreach_pulseaudio_pl.Config.Invariant.{IsValid}
use audioreach_pulseaudio_pl.Config.Chains.{HandlerKeeps}
use audioreach_pulseaudio_pl.Config.Table.{Handler, handled, handlers, parse_line}
use audioreach_pulseaudio_pl.Config.FormatsKeep.{
  parse_channel_maps-IsValid, parse_encodings-IsValid, parse_sample_formats-IsValid,
  parse_sample_rates-IsValid,
}
use audioreach_pulseaudio_pl.Config.Handlers.{
  parse_alternative_sample_rate-IsValid, parse_avoid_processing-IsValid,
  parse_default_buffer_count-IsValid, parse_default_buffer_size-IsValid,
  parse_default_channel_map-IsValid, parse_default_encoding-IsValid,
  parse_default_sample_format-IsValid, parse_default_sample_rate-IsValid, parse_type-IsValid,
  parse_use_hw_volume-IsValid,
}
use audioreach_pulseaudio_pl.Base.{Bool, Option, String, none, refl, some, ◌≡◌}
use audioreach_pulseaudio_pl.Config.SectionsKeep.{
  parse_description-IsValid, parse_max_sink_channels-IsValid, parse_max_source_channels-IsValid,
  parse_pal_devicepp_config-IsValid, parse_port_device-IsValid, parse_port_direction-IsValid,
  parse_port_format_detection-IsValid, parse_port_sys_path-IsValid, parse_presence-IsValid,
  parse_priority-IsValid,
}
use audioreach_pulseaudio_pl.Config.Keeps.{Kept}
use mathlib.Core.Path.{subst}

-- What each row of the table keeps.
table_keeps : Every (λ keyword h. HandlerKeeps h) handlers
table_keeps = (
  parse_port_direction-IsValid,
  (
    parse_port_device-IsValid,
    (
      parse_port_sys_path-IsValid "hdmi-tx-state",
      (
        parse_port_format_detection-IsValid,
        (
          parse_max_sink_channels-IsValid,
          (
            parse_max_source_channels-IsValid,
            (
              parse_use_hw_volume-IsValid,
              (
                parse_type-IsValid,
                (
                  parse_avoid_processing-IsValid,
                  (
                    parse_alternative_sample_rate-IsValid,
                    (
                      parse_port_names-IsValid,
                      (
                        parse_priority-IsValid,
                        (
                          parse_description-IsValid,
                          (
                            parse_presence-IsValid,
                            (
                              parse_default_encoding-IsValid,
                              (
                                parse_default_sample_rate-IsValid,
                                (
                                  parse_default_sample_format-IsValid,
                                  (
                                    parse_default_channel_map-IsValid,
                                    (
                                      parse_default_buffer_size-IsValid,
                                      (
                                        parse_default_buffer_count-IsValid,
                                        (
                                          parse_encodings-IsValid,
                                          (
                                            parse_sample_rates-IsValid,
                                            (
                                              parse_sample_formats-IsValid,
                                              (
                                                parse_channel_maps-IsValid,
                                                (
                                                  parse_pal_devicepp_config-IsValid,
                                                  (
                                                    parse_port_names-IsValid,
                                                    (parse_port_names-IsValid, tt),
                                                  ),
                                                ),
                                              ),
                                            ),
                                          ),
                                        ),
                                      ),
                                    ),
                                  ),
                                ),
                              ),
                            ),
                          ),
                        ),
                      ),
                    ),
                  ),
                ),
              ),
            ),
          ),
        ),
      ),
    ),
  ),
)

handled-Kept :
    (p : Parser) (section rvalue : String) (c : ConfigData) (o : Option Handler)
    → ((h : Handler) → o ≡ some h → HandlerKeeps h)
    → IsValid c
    → Kept (handled p section rvalue c o)
handled-Kept p section rvalue c none e v = tt
handled-Kept p section rvalue c (some h) e v = e h refl p section rvalue c v

parse_line-Kept :
    (p : Parser) (lvalue section rvalue : String) (c : ConfigData)
    → IsValid c
    → Kept (parse_line p lvalue section rvalue c)
unfolding parse_line
parse_line-Kept p lvalue section rvalue c v =
    handled-Kept p section rvalue c (lookup lvalue handlers)
      (λ h e. Every-lookup (λ keyword g. HandlerKeeps g) lvalue h handlers table_keeps e) v

-- The data after lines of the configuration, whether or not their handlers returned 0.
pub data Read (p : Parser) (c : ConfigData) : ConfigData → Type 0 where
  no_line : Read p c c
  line :
      {c1 c2 : ConfigData} (lvalue section rvalue : String) (ok : Bool)
      → Read p c c1
      → parse_line p lvalue section rvalue c1 ≡ some (ok, c2)
      → Read p c c2

-- However PulseAudio reads the values, after any lines of a configuration, accepted or not, every
-- entry has the name that it is found by; sinks and sources are numbered from 1 in the order of their
-- sections; their encodings and sample rates are supported ones, and their default encoding is too or
-- was never set; and whatever lists ports lists ports of the configuration.
pub Read-IsValid :
    (p : Parser) (c : ConfigData) {c' : ConfigData} → IsValid c → Read p c c' → IsValid c'
Read-IsValid p c v no_line = v
Read-IsValid p c v (line {c1 = c1} lvalue section rvalue ok r e) =
    let before = Read-IsValid p c v r in
    subst Kept e (parse_line-Kept p lvalue section rvalue c1 before)
