-- ===== src/Config/Map.antt =====
-- PulseAudio's hash maps by name, as association lists, and their laws.
use audioreach_pulseaudio_pl.Base.{
  Bool-cases, List, Option, String, [], arith, if◌then◌else◌, inl, inr, none, refl, some, ◌∷◌, ◌≡◌,
  true,
}
use mathlib.Core.Path.{subst, sym}
use text.Mathlib.Text.{◌==◌ as str_eq}
use text.Mathlib.TextEquality.{eq_iff}

module _ {A : Type 0} where
  abbrev pub lookup : String → List (String × A) → Option A
  lookup key [] = none
  lookup key ((k, v) ∷ rows) = if str_eq k key then some v else lookup key rows

  -- The entry of a name that is there is changed where it stands; another is added at the end.
  abbrev pub put : String → A → List (String × A) → List (String × A)
  put key v [] = (key, v) ∷ []
  put key v ((k, w) ∷ rows) = if str_eq k key then (k, v) ∷ rows else (k, w) ∷ put key v rows

  -- Does each entry, with its name, have the property?
  abbrev pub Every : (String → A → Type 0) → List (String × A) → Type 0
  Every P [] = Unit {0}
  Every P ((k, v) ∷ rows) = P k v × Every P rows

  pub lookup-put :
      (key other : String) (v : A) (rows : List (String × A))
      → lookup other (put key v rows) ≡ (if str_eq key other then some v else lookup other rows)
  lookup-put key other v [] = refl
  lookup-put key other v ((k, w) ∷ rows) =
      ground (arith, lookup-put key other v rows, eq_iff k key, eq_iff k other, eq_iff key other)

  pub lookup-put_self :
      (key : String) (v : A) (rows : List (String × A)) → lookup key (put key v rows) ≡ some v
  lookup-put_self key v rows =
      let e : str_eq key key ≡ true = (eq_iff key key).1 refl in
      ground (arith, lookup-put key key v rows)

  pub Every-lookup :
      (P : String → A → Type 0) (key : String) (v : A) (rows : List (String × A))
      → Every P rows
      → lookup key rows ≡ some v
      → P key v
  Every-lookup P key v [] h e = absurd (cc)
  Every-lookup P key v ((k, w) ∷ rows) h e = elim (Bool-cases (str_eq k key)) [
    | inl q ↦
        let f : w ≡ v = ground arith in subst (λ x. P x v) ((eq_iff k key).0 q) (subst (P k) f h.0)
    | inr q ↦ let f : lookup key rows ≡ some v = ground arith in Every-lookup P key v rows h.1 f
  ]

  pub Every-put :
      (P : String → A → Type 0) (key : String) (v : A) (rows : List (String × A))
      → P key v
      → Every P rows
      → Every P (put key v rows)
  Every-put P key v [] h hs = (h, tt)
  Every-put P key v ((k, w) ∷ rows) h hs = elim (Bool-cases (str_eq k key)) [
    | inl q ↦ rw q (subst (λ x. P x v) (sym ((eq_iff k key).0 q)) h, hs.1)
    | inr q ↦ rw q (hs.0, Every-put P key v rows h hs.1)
  ]

  pub Every-weaken :
      (P Q : String → A → Type 0) (rows : List (String × A))
      → ((k : String) (v : A) → P k v → Q k v)
      → Every P rows
      → Every Q rows
  Every-weaken P Q [] f h = tt
  Every-weaken P Q ((k, v) ∷ rows) f h = (f k v h.0, Every-weaken P Q rows f h.1)
