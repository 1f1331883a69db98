-- ===== src/Jack/Clients.antt =====
-- The registrations and deregistrations of pal-jack.c, in any order.
use audioreach_pulseaudio_pl.Jack.Consistent.{
  IsConsistent, add_client-IsConsistent, put-IsConsistent, remove-IsConsistent, store-IsConsistent,
}
use audioreach_pulseaudio_pl.Jack.{
  JackData, Registry, deregister_event_callback, hashmap_get, is_empty, register_event_callback,
  register_named, registered_type, remove_client, when_empty, is_detectable, deregister_port,
  register_port,
}
use audioreach_pulseaudio_pl.Ports.{JackType, get_port_name_from_jack_type}
use audioreach_pulseaudio_pl.Base.{
  Bool, Bool-cases, List, Option, String, [], arith, false, inl, inr, none, refl, some, ◌∷◌, ◌≡◌,
  if◌then◌else◌, ◌&&◌, ◌-◌, ◌<◌, ◌==◌, is_some, true,
}

when_empty-IsConsistent : (s : Registry) → IsConsistent s → IsConsistent (when_empty s)
unfolding when_empty
when_empty-IsConsistent s c = emptied s.registered refl
  where
    emptied :
        (rows : List (String × JackData))
        → s.registered ≡ rows
        → IsConsistent (
            if is_empty s.registered
            then record s { enabled = λ jack. false; allocated = false }
            else s)
    emptied [] e =
        simp e (record { agrees = λ jack name q. refl; typed = λ name j q. absurd (cc q) })
    emptied (row ∷ rows) e = simp e c

register_named-IsConsistent :
    (enables : JackType → Bool) (jack : JackType) (name : String) (s : Registry)
    → get_port_name_from_jack_type jack ≡ some name
    → IsConsistent s
    → IsConsistent (register_named enables jack name s).1
unfolding register_named
register_named-IsConsistent enables jack name s e c = elim (Bool-cases (s.enabled jack)) [
  | inl h ↦ rw h (add_client-IsConsistent name (hashmap_get name s.registered) s refl c)
  | inr h ↦ elim (Bool-cases (is_detectable jack && enables jack)) [
    | inl d ↦ rw (h, d) (put-IsConsistent jack name s e h c)
    | inr d ↦ rw (h, d) c
  ]
]

register_port-IsConsistent :
    (enables : JackType → Bool) (jack : JackType) (port : Option String) (s : Registry)
    → get_port_name_from_jack_type jack ≡ port
    → IsConsistent s
    → IsConsistent (register_port enables jack port s).1
unfolding register_port
register_port-IsConsistent enables jack none s e c = c
register_port-IsConsistent enables jack (some name) s e c =
    register_named-IsConsistent enables jack name s e c

pub register-IsConsistent :
    (enables : JackType → Bool) (jack_type : JackType) (s : Registry)
    → IsConsistent s
    → IsConsistent (register_event_callback enables jack_type s).1
unfolding register_event_callback
register-IsConsistent enables jack_type s c =
    register_port-IsConsistent enables (registered_type jack_type)
      (get_port_name_from_jack_type (registered_type jack_type)) (record s { allocated = true })
      refl (record { agrees = c.agrees; typed = c.typed })

-- The freed memory still reads as the record did.
abbrev pub IsIntact : (JackType → JackType) → Type 0
IsIntact stale = (jack : JackType) → stale jack ≡ jack

remove_client-IsConsistent :
    (stale : JackType → JackType) (name : String) (o : Option JackData) (s : Registry)
    → IsIntact stale
    → hashmap_get name s.registered ≡ o
    → IsConsistent s
    → IsConsistent (remove_client stale name o s).1
unfolding remove_client
remove_client-IsConsistent stale name none s i e c = c
remove_client-IsConsistent stale name (some j) s i e c = elim (Bool-cases (j.ref_count == 1)) [
  | inl h ↦ rw (h, i j.jack_type) (when_empty-IsConsistent _ (remove-IsConsistent name j s e c))
  | inr h ↦
      let more : 0 < j.ref_count - 1 = ground (arith, (c.typed name j e).1) in
      rw h (
        when_empty-IsConsistent _
          (store-IsConsistent name (record j { ref_count = j.ref_count - 1 }) j s e refl more c))
]

-- What a deregistration that has a result leaves.
abbrev pub Leaves : (Registry → Type 0) → Option (Bool × Registry) → Type 0
Leaves P none = Unit {0}
Leaves P (some (ok, s)) = P s

deregister_port-IsConsistent :
    (stale : JackType → JackType) (port : Option String) (s : Registry)
    → IsIntact stale
    → IsConsistent s
    → Leaves IsConsistent (deregister_port stale port s)
unfolding deregister_port
deregister_port-IsConsistent stale none s i c = tt
deregister_port-IsConsistent stale (some name) s i c = elim (Bool-cases s.allocated) [
  | inl a ↦
      simp a (remove_client-IsConsistent stale name (hashmap_get name s.registered) s i refl c)
  | inr a ↦ simp a tt
]

pub deregister-IsConsistent :
    (stale : JackType → JackType) (handle : JackType) (s : Registry)
    → IsIntact stale
    → IsConsistent s
    → Leaves IsConsistent (deregister_event_callback stale handle s)
unfolding deregister_event_callback
deregister-IsConsistent stale handle s i c =
    deregister_port-IsConsistent stale (get_port_name_from_jack_type handle) s i c

pub data JackOp : Type 0 where
  register : (JackType → Bool) → JackType → JackOp
  deregister : JackType → JackOp

-- One request: whether there is a handle, or what the deregistration returned, and the new registry.
abbrev pub request : (JackType → JackType) → JackOp → Registry → Option (Bool × Registry)
request stale (register enables jack) s =
    let (handle, s') = register_event_callback enables jack s in some (is_some handle, s')
request stale (deregister handle) s = deregister_event_callback stale handle s

-- A request without a result ends the run.
unfoldable pub run : (JackType → JackType) → List JackOp → Registry → Registry
run stale [] s = s
run stale (op ∷ ops) s = elim (request stale op s) [ none ↦ s | some r ↦ run stale ops r.1 ]
