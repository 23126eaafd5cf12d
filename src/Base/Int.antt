-- ===== src/Base/Int.antt =====
-- Signed integers over the native numbers: Go's `int` where a value may be negative.
use Prim.Native.Nat.{ℕ, ◌+◌, ◌-◌, ◌%◌, ◌<◌}
use mathlib.Core.Path.{◌≡◌}
use mathlib.Core.Logic.{◌↔◌}
use mathlib.Core.Bool.{Bool, true, false}
use native.Mathlib.Omega.{arith}
use clean_api.Base.Tests.{eqb, ltb, if◌then◌else◌}
use clean_api.Base.Eq.{Equality}

-- `negsuc n` is -(n + 1).
pub data ℤ : Type 0 where
  pos : ℕ → ℤ
  negsuc : ℕ → ℤ

abbrev pub eqb_ℤ : ℤ → ℤ → Bool
eqb_ℤ (pos a) (pos b) = eqb a b
eqb_ℤ (negsuc a) (negsuc b) = eqb a b
eqb_ℤ (pos a) (negsuc b) = false
eqb_ℤ (negsuc a) (pos b) = false

pub eqb_ℤ_iff : (a b : ℤ) → (eqb_ℤ a b ≡ true) ↔ (a ≡ b)
eqb_ℤ_iff (pos a) (pos b) = ground arith
eqb_ℤ_iff (negsuc a) (negsuc b) = ground arith
eqb_ℤ_iff (pos a) (negsuc b) = ground arith
eqb_ℤ_iff (negsuc a) (pos b) = ground arith

instance abbrev pub int_equality : Equality ℤ
int_equality = record { equal = eqb_ℤ; equal_iff = eqb_ℤ_iff }

-- `n > 0`.
abbrev pub is_pos : ℤ → Bool
is_pos (pos n) = ltb 0 n
is_pos (negsuc n) = false

abbrev two_63 : ℕ
two_63 = 9223372036854775808

abbrev two_64 : ℕ
two_64 = 18446744073709551616

-- The 64 bits of an integer, and the integer that 64 bits stand for.
abbrev pub bits : ℤ → ℕ
bits (pos n) = n % two_64
bits (negsuc n) = two_64 - 1 - n % two_64

abbrev pub of_bits : ℕ → ℤ
of_bits b = if ltb b two_63 then pos b else negsuc (two_64 - 1 - b)

-- `a + b` on int, which wraps around.
infixl 65 ◌+ℤ◌
unfoldable pub ◌+ℤ◌ : ℤ → ℤ → ℤ
a +ℤ b = of_bits ((bits a + bits b) % two_64)

-- Without an overflow it is the sum.
pub +ℤ_exact : (m n : ℕ) → m + n < 9223372036854775808 → pos m +ℤ pos n ≡ pos (m + n)
unfolding ◌+ℤ◌
+ℤ_exact m n h = ground arith
