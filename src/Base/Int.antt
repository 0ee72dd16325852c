-- ===== src/Base/Int.antt =====
-- Go's signed integers, where a sign can occur: budgets, limits and retcodes.
use Prim.Native.Nat.{ℕ}
use mathlib.Core.Bool.{Bool, true}
use go_salt_events.Base.Tests.{leb, ltb}

-- `negsuc n` is -(n + 1).
pub data ℤ : Type 0 where
  pos : ℕ → ℤ
  negsuc : ℕ → ℤ

-- `a > b` for an amount `a` that is never negative.
abbrev pub exceeds : ℕ → ℤ → Bool
exceeds a (pos b) = ltb b a
exceeds a (negsuc _) = true

-- `a >= b` for an amount `a` that is never negative.
abbrev pub reaches : ℕ → ℤ → Bool
reaches a (pos b) = leb b a
reaches a (negsuc _) = true
