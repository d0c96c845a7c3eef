-- ===== src/Common/Ints.antt =====
-- Whole numbers, on the native numbers.
use Prim.Native.Nat.{ℕ, ◌-◌}
use streamers.Common.Tests.{ltb, if◌then◌else◌}

-- `negsuc n` is -1 - n.
pub data ℤ : Type 0 where
  pos : ℕ → ℤ
  negsuc : ℕ → ℤ

-- The difference of two natural numbers.
abbrev pub sub_ℤ : ℕ → ℕ → ℤ
sub_ℤ a b = if ltb a b then negsuc (b - a - 1) else pos (a - b)

abbrev pub min_ℤ : ℤ → ℕ → ℤ
min_ℤ (pos a) b = pos (if ltb a b then a else b)
min_ℤ (negsuc a) b = negsuc a
