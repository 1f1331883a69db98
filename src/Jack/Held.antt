-- ===== src/Jack/Held.antt =====
-- When the registry of pal-jack.c has a map.
use audioreach_pulseaudio_pl.Jack.{
  JackData, Registry, add_client, deregister_event_callback, deregister_port, hashmap_get, is_empty,
  register_event_callback, register_named, register_port, registered_type, remove_client,
  when_empty,
}
use audioreach_pulseaudio_pl.Jack.Holders.{clients_of}
use audioreach_pulseaudio_pl.Jack.Clients.{Leaves}
use audioreach_pulseaudio_pl.Ports.{JackType, get_port_name_from_jack_type}
use audioreach_pulseaudio_pl.Base.{
  Bool, Bool-cases, List, Option, String, [], arith, false, if◌then◌else◌, inl, inr, none, refl,
  some, true, ◌∷◌, ◌≡◌, ◌⊎◌, ◌==◌,
}

-- Where there is no map nothing is registered.
abbrev pub IsHeld : Registry → Type 0
IsHeld s = (s.allocated ≡ true) ⊎ (s.registered ≡ [])

pub clients_of-unheld :
    (s : Registry) (name : String) → IsHeld s → s.allocated ≡ false → clients_of s name ≡ 0
clients_of-unheld s name (inl a) e = absurd (cc (a, e))
clients_of-unheld s name (inr r) e = rw r refl

when_empty-IsHeld : (s : Registry) → s.allocated ≡ true → IsHeld (when_empty s)
unfolding when_empty
when_empty-IsHeld s a = emptied s.registered refl
  where
    emptied :
        (rows : List (String × JackData))
        → s.registered ≡ rows
        → IsHeld (
            if is_empty s.registered
            then record s { enabled = λ jack. false; allocated = false }
            else s)
    emptied [] e = simp e (inr refl)
    emptied (row ∷ rows) e = simp e (inl a)

register_port-allocated :
    (enables : JackType → Bool) (jack : JackType) (port : Option String) (s : Registry)
    → s.allocated ≡ true
    → (register_port enables jack port s).1.allocated ≡ true
unfolding register_port register_named add_client
register_port-allocated enables jack none s a = a
register_port-allocated enables jack (some name) s a = ground (arith, a)

pub register-IsHeld :
    (enables : JackType → Bool) (jack : JackType) (s : Registry)
    → IsHeld (register_event_callback enables jack s).1
unfolding register_event_callback
register-IsHeld enables jack s = inl (
    register_port-allocated enables (registered_type jack)
      (get_port_name_from_jack_type (registered_type jack)) (record s { allocated = true }) refl)

remove_client-IsHeld :
    (stale : JackType → JackType) (name : String) (o : Option JackData) (s : Registry)
    → s.allocated ≡ true
    → IsHeld (remove_client stale name o s).1
unfolding remove_client
remove_client-IsHeld stale name none s a = inl a
remove_client-IsHeld stale name (some j) s a = elim (Bool-cases (j.ref_count == 1)) [
  | inl h ↦ rw h (when_empty-IsHeld _ a)
  | inr h ↦ rw h (when_empty-IsHeld _ a)
]

deregister_port-IsHeld :
    (stale : JackType → JackType) (port : Option String) (s : Registry)
    → Leaves IsHeld (deregister_port stale port s)
unfolding deregister_port
deregister_port-IsHeld stale none s = tt
deregister_port-IsHeld stale (some name) s = elim (Bool-cases s.allocated) [
  | inl a ↦ simp a (remove_client-IsHeld stale name (hashmap_get name s.registered) s a)
  | inr a ↦ simp a tt
]

pub deregister-IsHeld :
    (stale : JackType → JackType) (handle : JackType) (s : Registry)
    → Leaves IsHeld (deregister_event_callback stale handle s)
unfolding deregister_event_callback
deregister-IsHeld stale handle s =
    deregister_port-IsHeld stale (get_port_name_from_jack_type handle) s
