-- ===== src/Config/Chains.antt =====
-- That the chains over the kinds of section of pal-config-parser.c keep what holds of the data.
use audioreach_pulseaudio_pl.Config.Table.{Handler}
use audioreach_pulseaudio_pl.Config.Entry.{
  Edit, after_prefix, edit_loopback, edit_port, edit_profile, edit_sink, edit_source, edit_usecase,
  edit_usecase_or_port, else_try,
}
use audioreach_pulseaudio_pl.Base.{String}
use audioreach_pulseaudio_pl.Config.Invariant.{IsValid, PortEdit, SinkEdit, SourceEdit}
use audioreach_pulseaudio_pl.Config.Keeps.{
  Kept, LoopbackEdit, ProfileEdit, edit_loopback-Kept, edit_port-Kept, edit_profile-Kept,
  edit_sink-Kept, edit_source-Kept, else-Kept, or_fail-IsValid,
}
use audioreach_pulseaudio_pl.Config.{ConfigData, Loopback, Parser, Port, Profile, Usecase}

pub sink_chain :
    (p : Parser) (section : String) (f : Edit Usecase) (c : ConfigData)
    → SinkEdit f
    → IsValid c
    → Kept (edit_sink p section f c)
unfolding edit_sink
sink_chain p section f c e v = edit_sink-Kept p f c (after_prefix "Sink " section) e v

pub source_chain :
    (p : Parser) (section : String) (f : Edit Usecase) (c : ConfigData)
    → SourceEdit f
    → IsValid c
    → Kept (edit_source p section f c)
unfolding edit_source
source_chain p section f c e v = edit_source-Kept p f c (after_prefix "Source " section) e v

pub port_chain :
    (p : Parser) (section : String) (f : Edit Port) (c : ConfigData)
    → PortEdit f
    → IsValid c
    → Kept (edit_port p section f c)
unfolding edit_port
port_chain p section f c e v = edit_port-Kept p f c (after_prefix "Port " section) e v

pub profile_chain :
    (section : String) (f : Edit Profile) (c : ConfigData)
    → ProfileEdit c.ports f
    → IsValid c
    → Kept (edit_profile section f c)
unfolding edit_profile
profile_chain section f c e v = edit_profile-Kept f c (after_prefix "Profile " section) e v

pub loopback_chain :
    (section : String) (f : Edit Loopback) (c : ConfigData)
    → LoopbackEdit c.ports f
    → IsValid c
    → Kept (edit_loopback section f c)
unfolding edit_loopback
loopback_chain section f c e v = edit_loopback-Kept f c (after_prefix "Loopback " section) e v

pub edit_usecase-IsValid :
    (p : Parser) (section : String) (f g : Edit Usecase) (c : ConfigData)
    → SinkEdit f
    → SourceEdit g
    → IsValid c
    → IsValid (edit_usecase p section f g c).1
unfolding edit_usecase
edit_usecase-IsValid p section f g c a b v =
    or_fail-IsValid c (else_try (edit_sink p section f c) (edit_source p section g c)) v (
      else-Kept (edit_sink p section f c) (edit_source p section g c) (sink_chain p section f c a v)
        (source_chain p section g c b v))

pub edit_usecase_or_port-IsValid :
    (p : Parser) (section : String) (f g : Edit Usecase) (h : Edit Port) (c : ConfigData)
    → SinkEdit f
    → SourceEdit g
    → PortEdit h
    → IsValid c
    → IsValid (edit_usecase_or_port p section f g h c).1
unfolding edit_usecase_or_port
edit_usecase_or_port-IsValid p section f g h c a b d v =
    let sink = edit_sink p section f c in
    let source = edit_source p section g c in
    let port = edit_port p section h c in
    or_fail-IsValid c (else_try sink (else_try source port)) v (
      else-Kept sink (else_try source port) (sink_chain p section f c a v)
        (else-Kept source port (source_chain p section g c b v) (port_chain p section h c d v)))

-- A handler keeps what holds of the data.
abbrev pub HandlerKeeps : Handler → Type 0
HandlerKeeps h =
    (p : Parser) (section rvalue : String) (c : ConfigData)
    → IsValid c
    → IsValid (h p section rvalue c).1
