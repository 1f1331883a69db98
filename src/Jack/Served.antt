-- ===== src/Jack/Served.antt =====
-- What the registry of pal-jack.c promises its clients, and how one request keeps to it.
use audioreach_pulseaudio_pl.Jack.{Registry, registered_type}
use audioreach_pulseaudio_pl.Ports.{JackType, get_port_name_from_jack_type}
use audioreach_pulseaudio_pl.Jack.Holders.{Holders, Shows, clients_of, none_out, one_less, one_more}
use audioreach_pulseaudio_pl.Jack.Clients.{JackOp, deregister, register, run, request}
use audioreach_pulseaudio_pl.Base.{
  Bool, List, Option, String, [], false, if◌then◌else◌, none, some, true, ◌+◌, ◌-◌, ◌∙◌, ◌∷◌, ◌≡◌,
  arith, ◌<◌, ◌⊎◌,
}
use mathlib.Core.Path.{ap, sym}
use text.Mathlib.Text.{◌==◌ as str_eq}

-- What the registry promises, with no map and no bits. For each request it says whether it was granted: a
-- registration gives a handle out or, only where no handle of its port is out, may refuse; a
-- deregistration takes back a handle that is out, and is refused where none of its port is; it fails an
-- assertion, which ends the run, only where it names no port or where no handle is out at all.
pub data Served : List JackOp → List Bool → Holders → Holders → Type 0 where
  nothing : {k : Holders} → Served [] [] k k
  granted :
      {ops : List JackOp} {bs : List Bool} {k k' : Holders} (enables : JackType → Bool)
      (jack : JackType) (name : String)
      → get_port_name_from_jack_type (registered_type jack) ≡ some name
      → Served ops bs (one_more name k) k'
      → Served (register enables jack ∷ ops) (true ∷ bs) k k'
  refused :
      {ops : List JackOp} {bs : List Bool} {k k' : Holders} (enables : JackType → Bool)
      (jack : JackType)
      → none_out (get_port_name_from_jack_type (registered_type jack)) k ≡ true
      → Served ops bs k k'
      → Served (register enables jack ∷ ops) (false ∷ bs) k k'
  returned :
      {ops : List JackOp} {bs : List Bool} {k k' : Holders} (jack : JackType) (name : String)
      → get_port_name_from_jack_type jack ≡ some name
      → none_out (some name) k ≡ false
      → Served ops bs (one_less name k) k'
      → Served (deregister jack ∷ ops) (true ∷ bs) k k'
  unknown :
      {ops : List JackOp} {bs : List Bool} {k k' : Holders} (jack : JackType) (name : String)
      → get_port_name_from_jack_type jack ≡ some name
      → none_out (some name) k ≡ true
      → Served ops bs k k'
      → Served (deregister jack ∷ ops) (false ∷ bs) k k'
  stopped :
      {ops : List JackOp} {k : Holders} (jack : JackType)
      → (get_port_name_from_jack_type jack ≡ none) ⊎ ((name : String) → k name ≡ 0)
      → Served (deregister jack ∷ ops) [] k k

-- The answers of the code to the requests: is there a handle, and was the deregistration one?
unfoldable pub answers : (JackType → JackType) → List JackOp → Registry → List Bool
answers stale [] s = []
answers stale (op ∷ ops) s = elim (request stale op s) [
  | none ↦ []
  | some r ↦ r.0 ∷ answers stale ops r.1
]

pub more-Shows :
    (name : String) (s s' : Registry) (k : Holders)
    → ((other : String) → clients_of s' other ≡ one_more name (clients_of s) other)
    → Shows s k
    → Shows s' (one_more name k)
more-Shows name s s' k h w other =
    h other ∙ ap (λ x. if str_eq name other then x + 1 else x) (w other)

pub less-Shows :
    (name : String) (s s' : Registry) (k : Holders)
    → ((other : String) → clients_of s' other ≡ one_less name (clients_of s) other)
    → Shows s k
    → Shows s' (one_less name k)
less-Shows name s s' k h w other =
    h other ∙ ap (λ x. if str_eq name other then x - 1 else x) (w other)

pub same-Shows :
    (s s' : Registry) (k : Holders)
    → ((other : String) → clients_of s' other ≡ clients_of s other)
    → Shows s k
    → Shows s' k
same-Shows s s' k h w other = h other ∙ w other

-- The abstract state reached, how it is reached, and that the registry shows it.
abbrev pub Serves : List JackOp → List Bool → Holders → Registry → Type 0
Serves ops bs k s' = (k' : Holders) × Served ops bs k k' × Shows s' k'

-- What one step leaves to the steps that follow it.
abbrev pub Rest : (JackType → JackType) → List JackOp → Registry → Type 0
Rest stale ops s' =
    (k : Holders) → Shows s' k → Serves ops (answers stale ops s') k (run stale ops s')

-- No handle is out where the registry counts none.
pub nothing_out :
    (name : String) (o : Option String) (s : Registry) (k : Holders)
    → o ≡ some name
    → clients_of s name ≡ 0
    → Shows s k
    → none_out o k ≡ true
nothing_out name o s k e z w =
    let n : k name ≡ 0 = sym (w name) ∙ z in
    let q : none_out (some name) k ≡ true = ground arith in ap (λ x. none_out x k) e ∙ q

pub something_out :
    (name : String) (s : Registry) (k : Holders)
    → 0 < clients_of s name
    → Shows s k
    → none_out (some name) k ≡ false
something_out name s k m w = let n : clients_of s name ≡ k name = w name in ground arith
