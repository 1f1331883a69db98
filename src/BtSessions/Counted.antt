-- ===== src/BtSessions/Counted.antt =====
-- The table of the Bluetooth sessions, its count, and the records that its sessions need.
use text.Mathlib.Text.{◌==◌ as str_eq}
use text.Mathlib.TextEquality.{eq_iff}
use mathlib.Core.Path.{subst}
use audioreach_pulseaudio_pl.BtSessions.{
  Module, bt_a2dp_sink, bt_sco_usecase, remove_session, session_of,
}
use audioreach_pulseaudio_pl.Base.{
  Bool-cases, List, String, [], arith, inl, inr, is_some, length, none, refl, some, true, ℕ, ◌∷◌,
  ◌≡◌, ◌⊎◌, ◌+◌,
}

abbrev pub Distinct : List (String × ℕ) → Type 0
Distinct [] = Unit {0}
Distinct ((k, n) ∷ rows) = (session_of k rows ≡ none) × Distinct rows

-- The count is that of the table, the table holds a name once, and the methods of a session, which
-- read its record unasked, find one.
pub record IsConsistent (m : Module) : Type 0 where
  pub counted : m.session_count ≡ length m.sessions
  pub distinct : Distinct m.sessions
  pub sink_there : (session_of bt_a2dp_sink m.sessions ≡ none) ⊎ (is_some m.btsink ≡ true)
  pub sco_there : (session_of bt_sco_usecase m.sessions ≡ none) ⊎ (is_some m.btsco ≡ true)

pub remove-none :
    (name other : String) (rows : List (String × ℕ))
    → session_of name rows ≡ none
    → session_of name (remove_session other rows) ≡ none
remove-none name other [] h = h
remove-none name other ((k, n) ∷ rows) h = ground (arith, remove-none name other rows)

pub remove-Distinct :
    (name : String) (rows : List (String × ℕ)) → Distinct rows → Distinct (remove_session name rows)
remove-Distinct name [] d = d
remove-Distinct name ((k, n) ∷ rows) d = elim (Bool-cases (str_eq k name)) [
  | inl e ↦ rw e d.1
  | inr e ↦ rw e (remove-none k name rows d.0, remove-Distinct name rows d.1)
]

pub removed_session :
    (name : String) (rows : List (String × ℕ))
    → Distinct rows
    → session_of name (remove_session name rows) ≡ none
removed_session name [] d = refl
removed_session name ((k, n) ∷ rows) d = elim (Bool-cases (str_eq k name)) [
  | inl e ↦ rw e (subst (λ x. session_of x rows ≡ none) ((eq_iff k name).0 e) d.0)
  | inr e ↦ simp e (removed_session name rows d.1)
]

pub length-remove :
    (name : String) (n : ℕ) (rows : List (String × ℕ))
    → session_of name rows ≡ some n
    → length rows ≡ length (remove_session name rows) + 1
length-remove name n [] h = absurd (cc)
length-remove name n ((k, i) ∷ rows) h = ground (arith, length-remove name n rows)
