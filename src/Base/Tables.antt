-- ===== src/Base/Tables.antt =====
-- C arrays as functions of the index, constant tables as lists of rows, and the loop that searches
-- a table and breaks at the first row that fits.
use Prim.Native.Nat.{ℕ, zero, suc}
use mathlib.Core.Bool.{Bool, true, false}
use mathlib.Core.Option.{Option, none, some}
use mathlib.Core.List.{List, [], ◌∷◌}
use audioreach_pulseaudio_pl.Base.Tests.{◌==◌, if◌then◌else◌}

module _ {ℓ} {A : Type ℓ} where
  -- A write at one index of an array.
  abbrev pub update : (ℕ → A) → ℕ → A → ℕ → A
  update f i v j = if i == j then v else f j

  abbrev pub length : List A → ℕ
  length [] = 0
  length (x ∷ xs) = suc (length xs)

  abbrev pub replicate : ℕ → A → List A
  replicate zero a = []
  replicate (suc n) a = a ∷ replicate n a

module _ {ℓ κ} {A : Type ℓ} {B : Type κ} where
  -- The first row whose key passes the test.
  abbrev pub find_row : (A → Bool) → List (A × B) → Option B
  find_row p [] = none
  find_row p ((a, b) ∷ rows) = if p a then some b else find_row p rows

module _ {ℓ} {A : Type ℓ} where
  abbrev pub get_or : Option A → A → A
  get_or none d = d
  get_or (some a) d = a

  abbrev pub is_some : Option A → Bool
  is_some none = false
  is_some (some a) = true

-- Is the number in the array?
abbrev pub mem : ℕ → List ℕ → Bool
mem a [] = false
mem a (x ∷ xs) = if a == x then true else mem a xs
