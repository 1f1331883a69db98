-- ===== src/BtSessions/Keeps.antt =====
-- What a connection and a disconnection of a Bluetooth session keep.
use text.Mathlib.Text.{◌==◌ as str_eq}
use text.Mathlib.TextEquality.{eq_iff}
use mathlib.Core.Path.{ap, subst}
use audioreach_pulseaudio_pl.Pal.{History, Pal}
use audioreach_pulseaudio_pl.Loopback.{LoopbackConfig}
use audioreach_pulseaudio_pl.BtSessions.Counted.{
  Distinct, IsConsistent, length-remove, remove-Distinct, remove-none, removed_session,
}
use audioreach_pulseaudio_pl.BtSessions.Ready.{Ready, Served, init_usecase-Ready}
use audioreach_pulseaudio_pl.BtSessions.{
  Module, add_session, bt_a2dp_sink, bt_connect, bt_disconnect, bt_sco_usecase, check_valid_usecase,
  init_usecase, release_sco, release_sink, release_usecase, remove_session, session_of, with_reply,
  dropped, drop_session, paths,
}
use audioreach_pulseaudio_pl.Base.{
  Bool, Bool-cases, List, Option, String, arith, false, inl, inr, is_some, length, none, refl, some,
  true, ℕ, ◌≡◌, ◌⊎◌, ◌∷◌, ◌∙◌, ◌+◌, if◌then◌else◌,
}

abbrev pub Keeps : Option (Bool × Module × History) → Type 0
Keeps none = Unit {0}
Keeps (some (ok, m, t)) = IsConsistent m

add_session-Keeps :
    (adds : List ℕ → ℕ → Bool) (usecase : String) (m : Module) (t : History)
    → IsConsistent m
    → session_of usecase m.sessions ≡ none
    → Served usecase m
    → Keeps (with_reply (add_session adds usecase m) t)
add_session-Keeps adds usecase m t v e s =
    let a : (session_of bt_a2dp_sink ((usecase, m.session_count + 1) ∷ m.sessions) ≡ none)
        ⊎ (is_some m.btsink ≡ true) =
      ground (arith, v.sink_there, s.0) in
    let b : (session_of bt_sco_usecase ((usecase, m.session_count + 1) ∷ m.sessions) ≡ none)
        ⊎ (is_some m.btsco ≡ true) =
      ground (arith, v.sco_there, s.1) in
    let c : m.session_count + 1 ≡ length ((usecase, m.session_count + 1) ∷ m.sessions) =
      ground (arith, v.counted) in
    elim (Bool-cases (adds (paths m.sessions) (m.session_count + 1))) [
      | inl f ↦
          rw f (record { counted = c; distinct = (e, v.distinct); sink_there = a; sco_there = b })
      | inr f ↦ rw f tt
    ]

-- What the release of a use case leaves: all but the sessions of its name have their records.
record IsReleased (usecase : String) (m : Module) : Type 0 where
  counted : m.session_count ≡ length m.sessions
  distinct : Distinct m.sessions
  sink_there :
      (str_eq usecase bt_a2dp_sink ≡ true)
      ⊎ ((session_of bt_a2dp_sink m.sessions ≡ none) ⊎ (is_some m.btsink ≡ true))
  sco_there :
      (str_eq usecase bt_sco_usecase ≡ true)
      ⊎ ((session_of bt_sco_usecase m.sessions ≡ none) ⊎ (is_some m.btsco ≡ true))

-- The name of a session that is not in the table.
not_there :
    (usecase name : String) (rows : List (String × ℕ)) (b : Bool)
    → session_of usecase rows ≡ none
    → (str_eq usecase name ≡ true) ⊎ ((session_of name rows ≡ none) ⊎ (b ≡ true))
    → (session_of name rows ≡ none) ⊎ (b ≡ true)
not_there usecase name rows b e (inl q) =
    inl (subst (λ x. session_of x rows ≡ none) ((eq_iff usecase name).0 q) e)
not_there usecase name rows b e (inr k) = k

removed_there :
    (usecase name : String) (rows : List (String × ℕ)) (b : Bool)
    → Distinct rows
    → (str_eq usecase name ≡ true) ⊎ ((session_of name rows ≡ none) ⊎ (b ≡ true))
    → (session_of name (remove_session usecase rows) ≡ none) ⊎ (b ≡ true)
removed_there usecase name rows b d (inl q) = inl (
    subst (λ x. session_of x (remove_session usecase rows) ≡ none) ((eq_iff usecase name).0 q)
      (removed_session usecase rows d))
removed_there usecase name rows b d (inr (inl k)) = inl (remove-none name usecase rows k)
removed_there usecase name rows b d (inr (inr k)) = inr k

drop_session-IsConsistent :
    (usecase : String) (o : Option ℕ) (m : Module)
    → session_of usecase m.sessions ≡ o
    → IsReleased usecase m
    → IsConsistent (drop_session usecase o m).1
drop_session-IsConsistent usecase none m e v = record {
  counted = v.counted;
  distinct = v.distinct;
  sink_there = not_there usecase bt_a2dp_sink m.sessions (is_some m.btsink) e v.sink_there;
  sco_there = not_there usecase bt_sco_usecase m.sessions (is_some m.btsco) e v.sco_there;
}
drop_session-IsConsistent usecase (some n) m e v =
    let l = length-remove usecase n m.sessions e in
    let c = v.counted in
    record {
      counted = omega arith;
      distinct = remove-Distinct usecase m.sessions v.distinct;
      sink_there =
          removed_there usecase bt_a2dp_sink m.sessions (is_some m.btsink) v.distinct v.sink_there;
      sco_there =
          removed_there usecase bt_sco_usecase m.sessions (is_some m.btsco) v.distinct v.sco_there;
    }

abbrev Releases : String → Option (Module × History) → Type 0
Releases usecase none = Unit {0}
Releases usecase (some (m, t)) = IsReleased usecase m

-- A consistent module has released nothing.
kept : (usecase : String) (m : Module) → IsConsistent m → IsReleased usecase m
kept usecase m v = record {
  counted = v.counted;
  distinct = v.distinct;
  sink_there = inr v.sink_there;
  sco_there = inr v.sco_there;
}

release_sink-Releases :
    (p : Pal) (usecase : String) (conf : Option LoopbackConfig) (m : Module) (t : History)
    → str_eq usecase bt_a2dp_sink ≡ true
    → IsConsistent m
    → Releases usecase (release_sink p conf m t)
release_sink-Releases p usecase conf m t q v = ground (arith, kept usecase m v)

release_sco-Releases :
    (p : Pal) (usecase : String) (m : Module) (t : History)
    → str_eq usecase bt_sco_usecase ≡ true
    → IsConsistent m
    → Releases usecase (release_sco p m t)
release_sco-Releases p usecase m t q v = ground (arith, kept usecase m v)

release_usecase-Releases :
    (p : Pal) (usecase : String) (m : Module) (t : History)
    → IsConsistent m
    → Releases usecase (release_usecase p usecase m t)
release_usecase-Releases p usecase m t v = elim (Bool-cases (str_eq usecase bt_a2dp_sink)) [
  | inl e ↦ let k = release_sink-Releases p usecase m.bta2dp_conf m t e v in rw e k
  | inr e ↦ elim (Bool-cases (str_eq usecase bt_sco_usecase)) [
    | inl f ↦ let k = release_sco-Releases p usecase m t f v in rw e (rw f k)
    | inr f ↦ rw e (rw f (kept usecase m v))
  ]
]

dropped-Keeps :
    (usecase : String) (o : Option (Module × History))
    → Releases usecase o
    → Keeps (dropped usecase o)
dropped-Keeps usecase none k = k
dropped-Keeps usecase (some (m, t)) k =
    drop_session-IsConsistent usecase (session_of usecase m.sessions) m refl k

connected-Keeps :
    (adds : List ℕ → ℕ → Bool) (usecase : String) (m : Module) (o : Bool × Module × History)
    → session_of usecase m.sessions ≡ none
    → Ready m (Served usecase) o
    → Keeps (if o.0 then with_reply (add_session adds usecase o.1) o.2 else some (false, o.1, o.2))
connected-Keeps adds usecase m (false, m', t) e r = r.0
connected-Keeps adds usecase m (true, m', t) e r = elim r.2 [
  | inl k ↦ absurd (cc)
  | inr k ↦ add_session-Keeps adds usecase m' t r.0 (ap (session_of usecase) r.1 ∙ e) k
]

pub bt_connect-Keeps :
    (p : Pal) (a b : ℕ) (adds : List ℕ → ℕ → Bool) (usecase : Option String) (m : Module)
    (t : History)
    → IsConsistent m
    → Keeps (bt_connect p a b adds usecase m t)
unfolding bt_connect
bt_connect-Keeps p a b adds none m t v = v
bt_connect-Keeps p a b adds (some usecase) m t v = elim (Bool-cases (check_valid_usecase usecase)) [
  | inr e ↦ rw e v
  | inl e ↦ elim (Bool-cases (is_some (session_of usecase m.sessions))) [
    | inl f ↦ rw e (rw f v)
    | inr f ↦ rw e (
        rw f (
          connected-Keeps adds usecase m (init_usecase p a b usecase m t) (ground arith)
            (init_usecase-Ready p a b usecase m t v (ground arith))))
  ]
]

pub bt_disconnect-Keeps :
    (p : Pal) (usecase : Option String) (m : Module) (t : History)
    → IsConsistent m
    → Keeps (bt_disconnect p usecase m t)
unfolding bt_disconnect
bt_disconnect-Keeps p none m t v = v
bt_disconnect-Keeps p (some usecase) m t v = elim (Bool-cases (check_valid_usecase usecase)) [
  | inl e ↦ rw e (
      dropped-Keeps usecase (release_usecase p usecase m t)
        (release_usecase-Releases p usecase m t v))
  | inr e ↦ rw e v
]
