-- ===== src/Prelude/Int.antt =====
-- Signed integers over the native numbers, under the library's names (its ℤ stands on the unary ℕ),
-- and the two's complement reading of a machine word.
use Prim.Native.Nat.{ℕ, ◌+◌, ◌-◌, ◌%◌, ◌^◌}
use mathlib.Core.Path.{◌≡◌}
use mathlib.Core.Logic.{◌↔◌}
use mathlib.Core.Bool.{Bool, true, false}
use native.Mathlib.Omega.{arith}
use evget.Prelude.Tests.{ltb, ◌==◌, if◌then◌else◌}

-- `negsuc n` is -(n + 1).
pub data ℤ : Type 0 where
  pos : ℕ → ℤ
  negsuc : ℕ → ℤ

-- The value of a signed word of `w` bits with the bit pattern `n`.
abbrev pub signed : ℕ → ℕ → ℤ
signed w n = if ltb (n + n) (2 ^ w) then pos n else negsuc (2 ^ w - n - 1)

-- The bit pattern of `z` in an unsigned word of `w` bits.
abbrev pub wrap : ℕ → ℤ → ℕ
wrap w (pos n) = n % 2 ^ w
wrap w (negsuc n) = 2 ^ w - 1 - n % 2 ^ w

abbrev pub same_int : ℤ → ℤ → Bool
same_int (pos m) (pos n) = m == n
same_int (pos m) (negsuc n) = false
same_int (negsuc m) (pos n) = false
same_int (negsuc m) (negsuc n) = m == n

pub same_int_refl : (k : ℤ) → same_int k k ≡ true
same_int_refl (pos n) = ground arith
same_int_refl (negsuc n) = ground arith

-- `same_int` decides equality.
pub same_int_iff : (j k : ℤ) → (same_int j k ≡ true) ↔ (j ≡ k)
same_int_iff j k = ground arith
