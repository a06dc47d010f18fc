-- ===== src/Base/Integers.antt =====
-- The integers over the native numbers, with the tests that the tools make.
use Prim.Native.Nat.{ℕ}
use mathlib.Core.Bool.{Bool, true, false}
use agent_engineering_standa.Base.Tests.{ltb, ◌==◌}

-- `negsuc n` is -(n + 1).
pub data ℤ : Type 0 where
  pos negsuc : ℕ → ℤ

-- `a < b`
unfoldable pub ltℤ : ℤ → ℤ → Bool
ltℤ (pos a) (pos b) = ltb a b
ltℤ (pos a) (negsuc b) = false
ltℤ (negsuc a) (pos b) = true
ltℤ (negsuc a) (negsuc b) = ltb b a

-- `a == b`
unfoldable pub sameℤ : ℤ → ℤ → Bool
sameℤ (pos a) (pos b) = a == b
sameℤ (negsuc a) (negsuc b) = a == b
sameℤ _ _ = false
