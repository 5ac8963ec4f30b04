-- ===== src/Prelude/Integers.antt =====
-- Integers over the native numbers, as far as the program compares them.
use Prim.Native.Nat.{ℕ, ◌-◌}
use mathlib.Core.Bool.{Bool, false}
use consentchain.Prelude.Tests.{ltb, eqb}

pub data ℤ : Type 0 where
  pos : ℕ → ℤ
  negsuc : ℕ → ℤ

-- `n < z`
abbrev pub below : ℕ → ℤ → Bool
below n (pos m) = ltb n m
below n (negsuc m) = false

-- `z == -1`
abbrev pub is_minus_one : ℤ → Bool
is_minus_one (pos m) = false
is_minus_one (negsuc m) = eqb m 0

-- `max(0, z - n)`
abbrev pub remaining_of : ℤ → ℕ → ℕ
remaining_of (pos m) n = m - n
remaining_of (negsuc m) n = 0
