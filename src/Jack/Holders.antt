-- ===== src/Jack/Holders.antt =====
-- The registry of pal-jack.c as the handles that its clients hold: what `ref_count` counts.
use audioreach_pulseaudio_pl.Jack.Consistent.{
  IsConsistent, get-store, get-remove_other, get-remove_self,
}
use audioreach_pulseaudio_pl.Jack.{
  JackData, Registry, add_client, hashmap_get, is_detectable, register_named, store, when_empty,
  hashmap_put, hashmap_remove, remove_client,
}
use audioreach_pulseaudio_pl.Ports.{JackType, get_port_name_from_jack_type}
use audioreach_pulseaudio_pl.Base.{
  Bool, Bool-cases, Option, String, arith, false, if◌then◌else◌, inl, inr, is_some, none, refl,
  some, true, ℕ, ◌&&◌, ◌+◌, ◌-◌, ◌==◌, ◌∙◌, ◌≡◌, ◌⊎◌, suc, ◌<◌,
}
use mathlib.Core.Path.{ap, sym}
use text.Mathlib.Text.{◌==◌ as str_eq}
use text.Mathlib.TextEquality.{eq_iff}

abbrev refs : Option JackData → ℕ
refs none = 0
refs (some j) = j.ref_count

-- How many clients the registry counts under a port's name.
abbrev pub clients_of : Registry → String → ℕ
clients_of s name = refs (hashmap_get name s.registered)

-- The abstract state: how many handles of each port's jack are out.
abbrev pub Holders : Type 0
Holders = String → ℕ

abbrev pub one_more : String → Holders → Holders
one_more name k other = if str_eq name other then k other + 1 else k other

abbrev pub one_less : String → Holders → Holders
one_less name k other = if str_eq name other then k other - 1 else k other

-- Has the port of a jack no handle out?
abbrev pub none_out : Option String → Holders → Bool
none_out none k = true
none_out (some name) k = k name == 0

abbrev pub Shows : Registry → Holders → Type 0
Shows s k = (name : String) → clients_of s name ≡ k name

clients-store :
    (name other : String) (j : JackData) (s : Registry)
    → refs (hashmap_get other (store name j s.registered))
      ≡ (if str_eq name other then j.ref_count else clients_of s other)
clients-store name other j s = ground (arith, get-store name other j s.registered)

clients-same :
    (name other : String) (s : Registry)
    → str_eq name other ≡ true
    → clients_of s name ≡ clients_of s other
clients-same name other s h = ap (clients_of s) ((eq_iff name other).0 h)

clients-when_empty :
    (name : String) (s : Registry) → clients_of (when_empty s) name ≡ clients_of s name
unfolding when_empty
clients-when_empty name s = ground arith

-- The outcome of a registration by its name, and of a deregistration.
abbrev pub Registered : String → Registry → Option JackType × Registry → Type 0
Registered name s (handle, s') =
    ((is_some handle ≡ true)
      × ((other : String) → clients_of s' other ≡ one_more name (clients_of s) other))
    ⊎ ((is_some handle ≡ false)
        × (clients_of s name ≡ 0)
        × ((other : String) → clients_of s' other ≡ clients_of s other))

refs_none : (o : Option JackData) → is_some o ≡ false → refs o ≡ 0
refs_none none h = refl
refs_none (some j) h = absurd (cc)

added :
    (name other : String) (o : Option JackData) (s : Registry)
    → hashmap_get name s.registered ≡ o
    → is_some o ≡ true
    → clients_of (add_client name o s) other ≡ one_more name (clients_of s) other
unfolding add_client
added name other none s q h = absurd (cc)
added name other (some j) s q h =
    let n : clients_of s name ≡ j.ref_count = ap refs q in
    ground (
      arith,
      clients-store name other (record j { ref_count = suc j.ref_count }) s,
      clients-same name other s,
      n,
    )

put_first :
    (name other : String) (j : JackData) (s : Registry)
    → is_some (hashmap_get name s.registered) ≡ false
    → j.ref_count ≡ 1
    → refs (hashmap_get other (hashmap_put name j s.registered))
      ≡ one_more name (clients_of s) other
put_first name other j s h e =
    let n : clients_of s name ≡ 0 = refs_none (hashmap_get name s.registered) h in
    rw h (ground (arith, clients-same name other s, n, e))

pub register_named_lem :
    (enables : JackType → Bool) (jack : JackType) (name : String) (s : Registry)
    → get_port_name_from_jack_type jack ≡ some name
    → IsConsistent s
    → Registered name s (register_named enables jack name s)
unfolding register_named
register_named_lem enables jack name s e c =
    let a = c.agrees jack name e in
    elim (Bool-cases (s.enabled jack)) [
      | inl h ↦
          let present : is_some (hashmap_get name s.registered) ≡ true = sym a ∙ h in
          rw h
            (inl (refl, λ other. added name other (hashmap_get name s.registered) s refl present))
      | inr h ↦
          let free : is_some (hashmap_get name s.registered) ≡ false = sym a ∙ h in
          elim (Bool-cases (is_detectable jack && enables jack)) [
            | inl d ↦
                rw (h, d)
                  (inl (
                    refl,
                    λ other.
                        put_first name other (record { jack_type = jack; ref_count = 1 }) s free
                          refl,
                  ))
            | inr d ↦
                rw (h, d)
                  (inr (refl, refs_none (hashmap_get name s.registered) free, λ other. refl))
          ]
    ]

abbrev pub Deregistered : String → Registry → Bool × Registry → Type 0
Deregistered name s (ok, s') =
    ((ok ≡ true)
      × (0 < clients_of s name)
      × ((other : String) → clients_of s' other ≡ one_less name (clients_of s) other))
    ⊎ ((ok ≡ false)
        × (clients_of s name ≡ 0)
        × ((other : String) → clients_of s' other ≡ clients_of s other))

removed :
    (name other : String) (j : JackData) (s : Registry)
    → hashmap_get name s.registered ≡ some j
    → j.ref_count ≡ 1
    → refs (hashmap_get other (hashmap_remove name s.registered))
      ≡ one_less name (clients_of s) other
removed name other j s q e =
    let n : clients_of s name ≡ j.ref_count = ap refs q in
    elim (Bool-cases (str_eq name other)) [
      | inl h ↦
          let m : clients_of s other ≡ 1 = sym (clients-same name other s h) ∙ n ∙ e in
          let k : name ≡ other = (eq_iff name other).0 h in
          let z : refs (hashmap_get other (hashmap_remove name s.registered)) ≡ 0 =
            ap (λ x. refs (hashmap_get x (hashmap_remove name s.registered))) (sym k)
            ∙ ap refs (get-remove_self name s.registered) in
          rw (h, z) (omega (arith, m))
      | inr h ↦ rw h (ap refs (get-remove_other name other s.registered h))
    ]

lowered :
    (name other : String) (j : JackData) (s : Registry)
    → hashmap_get name s.registered ≡ some j
    → refs (hashmap_get other (store name (record j { ref_count = j.ref_count - 1 }) s.registered))
      ≡ one_less name (clients_of s) other
lowered name other j s q =
    let n : clients_of s name ≡ j.ref_count = ap refs q in
    ground (
      arith,
      clients-store name other (record j { ref_count = j.ref_count - 1 }) s,
      clients-same name other s,
      n,
    )

pub remove_client_lem :
    (stale : JackType → JackType) (name : String) (o : Option JackData) (s : Registry)
    → hashmap_get name s.registered ≡ o
    → IsConsistent s
    → Deregistered name s (remove_client stale name o s)
unfolding remove_client
remove_client_lem stale name none s q c = inr (refl, ap refs q, λ other. refl)
remove_client_lem stale name (some j) s q c =
    let n : clients_of s name ≡ j.ref_count = ap refs q in
    let more : 0 < clients_of s name = rw n (c.typed name j q).1 in
    elim (Bool-cases (j.ref_count == 1)) [
      | inl h ↦
          let one : j.ref_count ≡ 1 = ground arith in
          rw h
            (inl (refl, more, λ other. clients-when_empty other _ ∙ removed name other j s q one))
      | inr h ↦
          rw h (inl (refl, more, λ other. clients-when_empty other _ ∙ lowered name other j s q))
    ]
