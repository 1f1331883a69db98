-- ===== src/Jack/Refinement.antt =====
-- The registry of pal-jack.c as an implementation of the handles that are out.
use audioreach_pulseaudio_pl.Jack.{Registry}
use audioreach_pulseaudio_pl.Ports.{JackType}
use audioreach_pulseaudio_pl.Jack.Holders.{Holders}
use audioreach_pulseaudio_pl.Jack.Clients.{JackOp, deregister, run}
use audioreach_pulseaudio_pl.Base.{Bool, List, Option, [], none, some, ◌∷◌}
use audioreach_pulseaudio_pl.Jack.Served.{Served, Serves, answers}

-- A run from a deregistration with the given result.
abbrev Ends :
    (JackType → JackType)
    → JackType
    → List JackOp
    → Holders
    → Registry
    → Option (Bool × Registry)
    → Type 0
Ends stale jack ops k s o =
    Serves (deregister jack ∷ ops) (elim o [ none ↦ [] | some r ↦ r.0 ∷ answers stale ops r.1 ]) k
      (elim o [ none ↦ s | some r ↦ run stale ops r.1 ])
