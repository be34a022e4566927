-- ===== src/Common/Integers.antt =====
-- Differences of two times, which may be negative, over the native numbers.
use Prim.Native.Nat.{ℕ, ◌-◌}
use mathlib.Core.Bool.{Bool, false}
use operaia_lab.Common.Tests.{leb, if◌then◌else◌}

-- `negsuc n` is -(n + 1).
pub data ℤ : Type 0 where
  pos : ℕ → ℤ
  negsuc : ℕ → ℤ

-- `a - b` of the source.
unfoldable pub difference : ℕ → ℕ → ℤ
difference a b = if leb b a then pos (a - b) else negsuc (b - a - 1)

-- `z >= n`
unfoldable pub reaches : ℤ → ℕ → Bool
reaches (pos m) n = leb n m
reaches (negsuc m) n = false
