-- ===== src/Base/Int.antt =====
-- Signed integers over the native numbers, for C's `int` return codes and byte counts.
use Prim.Native.Nat.{ℕ, ◌-◌, ◌%◌, ◌^◌}
use mathlib.Core.Path.{◌≡◌}
use mathlib.Core.Bool.{Bool, true, false}
use native.Mathlib.Omega.{arith}
use audioreach_pulseaudio_pl.Base.Tests.{◌==◌, ltb, if◌then◌else◌}

-- `negsuc n` is -(n + 1).
pub data ℤ : Type 0 where
  pos : ℕ → ℤ
  negsuc : ℕ → ℤ

-- `rc == 0`, and its negation `if (rc)`.
abbrev pub succeeded : ℤ → Bool
succeeded (pos n) = n == 0
succeeded (negsuc n) = false

abbrev pub failed : ℤ → Bool
failed (pos n) = if n == 0 then false else true
failed (negsuc n) = true

-- `rc < 0`
abbrev pub is_negative : ℤ → Bool
is_negative (pos n) = false
is_negative (negsuc n) = true

abbrev pub equals_int : ℤ → ℕ → Bool
equals_int (pos n) k = n == k
equals_int (negsuc n) k = false

-- The conversions of C between a 64-bit pattern and `int64_t`, and of a 32-bit pattern to `int`.
abbrev pub to_int64 : ℕ → ℤ
to_int64 n = let m = n % 2 ^ 64 in if ltb m (2 ^ 63) then pos m else negsuc (2 ^ 64 - m - 1)

abbrev pub to_int32 : ℕ → ℤ
to_int32 n = let m = n % 2 ^ 32 in if ltb m (2 ^ 31) then pos m else negsuc (2 ^ 32 - m - 1)

abbrev pub to_uint64 : ℤ → ℕ
to_uint64 (pos n) = n % 2 ^ 64
to_uint64 (negsuc n) = (2 ^ 64 - 1 - n % 2 ^ 64) % 2 ^ 64

-- `a < b` for two `int` values.
abbrev pub ltb_ℤ : ℤ → ℤ → Bool
ltb_ℤ (pos a) (pos b) = ltb a b
ltb_ℤ (pos a) (negsuc b) = false
ltb_ℤ (negsuc a) (pos b) = true
ltb_ℤ (negsuc a) (negsuc b) = ltb b a

pub failed-not-succeeded : (r : ℤ) → failed r ≡ false → r ≡ pos 0
failed-not-succeeded (pos n) h = ground arith
failed-not-succeeded (negsuc n) h = ground arith
