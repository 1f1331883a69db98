-- ===== src/Jack/Consistent.antt =====
-- The registry of pal-jack.c under any sequence of registrations and deregistrations.
use audioreach_pulseaudio_pl.Jack.{
  JackData, Registry, hashmap_get, hashmap_remove, store, add_client, hashmap_put,
  toggle_jack_status_bits,
}
use audioreach_pulseaudio_pl.Ports.{
  JackType, same_jack, get_port_name_from_jack_type, get_jack_type_from_port_name, jack_invalid,
}
use audioreach_pulseaudio_pl.Ports.JackNames.{jack_type-port_name}
use audioreach_pulseaudio_pl.Base.{
  List, [], String, arith, false, none, refl, some, true, ◌≡◌, ◌∷◌, if◌then◌else◌, Option, is_some,
  sym, ◌≢◌, Bool-cases, ap, inl, inr, suc, ◌<◌, ◌∙◌,
}
use text.Mathlib.Text.{◌==◌ as str_eq}
use text.Mathlib.TextEquality.{eq_iff}

same_jack_sound : (a b : JackType) → same_jack a b ≡ true → a ≡ b
same_jack_sound a b h = ground arith

not_invalid :
    (jack : JackType) (name : String)
    → get_port_name_from_jack_type jack ≡ some name
    → jack ≢ jack_invalid
unfolding get_port_name_from_jack_type
not_invalid jack name e q = absurd (cc (rw q at e))

pub get-remove_self :
    (name : String) (rows : List (String × JackData))
    → hashmap_get name (hashmap_remove name rows) ≡ none
get-remove_self name [] = refl
get-remove_self name ((k, j) ∷ rows) = ground (arith, get-remove_self name rows)

pub get-remove_other :
    (name other : String) (rows : List (String × JackData))
    → str_eq name other ≡ false
    → hashmap_get other (hashmap_remove name rows) ≡ hashmap_get other rows
get-remove_other name other [] h = refl
get-remove_other name other ((k, j) ∷ rows) h =
    ground (arith, get-remove_other name other rows h, (eq_iff k name).0)

pub get-store :
    (name other : String) (j : JackData) (rows : List (String × JackData))
    → hashmap_get other (store name j rows)
      ≡ (if str_eq name other then some j else hashmap_get other rows)
get-store name other j rows = ground (arith, get-remove_other name other rows)

jack_of_name :
    (jack : JackType) (name : String)
    → get_port_name_from_jack_type jack ≡ some name
    → get_jack_type_from_port_name name ≡ jack
jack_of_name jack name e =
    let (name', e', k) = jack_type-port_name jack (not_invalid jack name e) in
    let q : name' ≡ name = cc (e, e') in rw (sym q) k

-- The registry is consistent: a jack is marked as enabled exactly where its port is registered, and
-- what is registered under a port's name is the jack of that port.
pub record IsConsistent (s : Registry) : Type 0 where
  pub agrees :
      (jack : JackType) (name : String)
      → get_port_name_from_jack_type jack ≡ some name
      → s.enabled jack ≡ is_some (hashmap_get name s.registered)
  pub typed :
      (name : String) (j : JackData)
      → hashmap_get name s.registered ≡ some j
      → (get_port_name_from_jack_type j.jack_type ≡ some name) × (0 < j.ref_count)

pub store-IsConsistent :
    (name : String) (j old : JackData) (s : Registry)
    → hashmap_get name s.registered ≡ some old
    → j.jack_type ≡ old.jack_type
    → 0 < j.ref_count
    → IsConsistent s
    → IsConsistent (record s { registered = store name j s.registered })
store-IsConsistent name j old s e same more c = record {
  agrees = λ jack other q. elim (Bool-cases (str_eq name other)) [
    | inl h ↦
        let n : name ≡ other = (eq_iff name other).0 h in
        rw (get-store name other j s.registered, h)
          (c.agrees jack other q
            ∙ ap (λ (k : String). is_some (hashmap_get k s.registered)) (sym n)
            ∙ ap is_some e)
    | inr h ↦ rw (get-store name other j s.registered, h) (c.agrees jack other q)
  ];
  typed = λ other i q. elim (Bool-cases (str_eq name other)) [
    | inl h ↦
        let n : name ≡ other = (eq_iff name other).0 h in
        let k : j ≡ i = cc (rw (get-store name other j s.registered, h) at q) in
        let o = c.typed name old e in (rw (sym k, sym n, same) o.0, rw (sym k) more)
    | inr h ↦ c.typed other i (rw (get-store name other j s.registered, h) at q)
  ];
}

pub add_client-IsConsistent :
    (name : String) (o : Option JackData) (s : Registry)
    → hashmap_get name s.registered ≡ o
    → IsConsistent s
    → IsConsistent (add_client name o s)
unfolding add_client
add_client-IsConsistent name none s e c = c
add_client-IsConsistent name (some j) s e c =
    store-IsConsistent name (record j { ref_count = suc j.ref_count }) j s e refl (omega arith) c

same_jack_self : (a : JackType) → same_jack a a ≡ true
same_jack_self a = ground arith

-- Two port names are the same text only for the same jack type.
same_name :
    (a b : JackType) (name other : String)
    → get_port_name_from_jack_type a ≡ some name
    → get_port_name_from_jack_type b ≡ some other
    → same_jack a b ≡ str_eq name other
same_name a b name other e q = elim (Bool-cases (same_jack a b)) [
  | inl h ↦
      let k : a ≡ b = same_jack_sound a b h in
      let n : name ≡ other = cc (rw k at e, q) in h ∙ sym ((eq_iff name other).1 n)
  | inr h ↦ elim (Bool-cases (str_eq name other)) [
    | inl n ↦
        let m : name ≡ other = (eq_iff name other).0 n in
        let k : a ≡ b = cc (jack_of_name a name e, jack_of_name b other q, m) in
        let x : same_jack a b ≡ true = rw k (same_jack_self b) in absurd (cc (h, x))
    | inr n ↦ h ∙ sym n
  ]
]

pub put-IsConsistent :
    (jack : JackType) (name : String) (s : Registry)
    → get_port_name_from_jack_type jack ≡ some name
    → s.enabled jack ≡ false
    → IsConsistent s
    → IsConsistent (record s {
      enabled = toggle_jack_status_bits jack s.enabled;
      registered = hashmap_put name (record { jack_type = jack; ref_count = 1 }) s.registered;
    })
put-IsConsistent jack name s e off c =
    let free : is_some (hashmap_get name s.registered) ≡ false = sym (c.agrees jack name e) ∙ off in
    record {
      agrees = λ other k q. elim (Bool-cases (str_eq name k)) [
        | inl h ↦
            let n : name ≡ k = (eq_iff name k).0 h in
            let z : s.enabled other ≡ false = c.agrees other k q ∙ rw (sym n) free in
            rw (free, same_name jack other name k e q, h, z)
        | inr h ↦ rw (free, same_name jack other name k e q, h) (c.agrees other k q)
      ];
      typed = λ k i q. elim (Bool-cases (str_eq name k)) [
        | inl h ↦
            let n : name ≡ k = (eq_iff name k).0 h in
            let same : record { jack_type = jack; ref_count = 1 } ≡ i = cc (rw (free, h) at q) in
            rw (sym same, sym n) (e, omega arith)
        | inr h ↦ c.typed k i (rw (free, h) at q)
      ];
    }

pub remove-IsConsistent :
    (name : String) (j : JackData) (s : Registry)
    → hashmap_get name s.registered ≡ some j
    → IsConsistent s
    → IsConsistent (record s {
      enabled = toggle_jack_status_bits j.jack_type s.enabled;
      registered = hashmap_remove name s.registered;
    })
remove-IsConsistent name j s e c =
    let own = (c.typed name j e).0 in
    record {
      agrees = λ other k q. elim (Bool-cases (str_eq name k)) [
        | inl h ↦
            let n : name ≡ k = (eq_iff name k).0 h in
            let z : s.enabled other ≡ true =
              c.agrees other k q
              ∙ ap (λ (w : String). is_some (hashmap_get w s.registered)) (sym n)
              ∙ ap is_some e in
            rw (
              same_name j.jack_type other name k own q,
              h,
              z,
              sym n,
              get-remove_self name s.registered,
            )
        | inr h ↦
            rw (same_name j.jack_type other name k own q, h, get-remove_other name k s.registered h)
              (c.agrees other k q)
      ];
      typed = λ k i q. elim (Bool-cases (str_eq name k)) [
        | inl h ↦
            let n : name ≡ k = (eq_iff name k).0 h in
            absurd (cc (rw (sym n, get-remove_self name s.registered) at q))
        | inr h ↦ c.typed k i (rw (get-remove_other name k s.registered h) at q)
      ];
    }
