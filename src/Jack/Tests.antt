-- ===== src/Jack/Tests.antt =====
-- The theorem on the registry at concrete clients.
use audioreach_pulseaudio_pl.Jack.Holders.{Holders}
use audioreach_pulseaudio_pl.Jack.Served.{Served}
use audioreach_pulseaudio_pl.Jack.Clients.{JackOp, deregister, register}
use audioreach_pulseaudio_pl.Jack.{Registry}
use audioreach_pulseaudio_pl.Ports.{hdmi_out, btsco_in, JackType}
use audioreach_pulseaudio_pl.Base.{List, [], false, true, ◌∷◌}

abbrev nothing_registered : Registry
nothing_registered = record { enabled = λ jack. false; allocated = false; registered = [] }

abbrev clients : List JackOp
clients =
    register (λ jack. true) hdmi_out
    ∷ register (λ jack. true) hdmi_out
    ∷ register (λ jack. false) btsco_in
    ∷ deregister hdmi_out
    ∷ []

abbrev intact : JackType → JackType
intact jack = jack
