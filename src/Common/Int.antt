-- ===== src/Common/Int.antt =====
-- The C type `int` where its sign matters: arguments that a caller may pass below zero.
use Prim.Native.Nat.{ℕ}
use mathlib.Core.Bool.{Bool, true}
use underling.Common.Tests.{ltb}

-- `negsuc n` is -(n + 1).
pub data ℤ : Type 0 where
  pos : ℕ → ℤ
  negsuc : ℕ → ℤ

-- The test `i < n` against a constant that is not negative.
abbrev pub below : ℤ → ℕ → Bool
below (pos i) n = ltb i n
below (negsuc i) n = true

-- The value of an integer that a guard has found not to be negative.
abbrev pub nonneg : ℤ → ℕ
nonneg (pos i) = i
nonneg (negsuc i) = 0
