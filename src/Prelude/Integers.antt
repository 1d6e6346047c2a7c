-- ===== src/Prelude/Integers.antt =====
-- Signed integers (`i64` without arithmetic), their tests and their order.
use Prim.Native.Nat.{ℕ, ◌≤◌}
use mathlib.Core.Path.{◌≡◌}
use mathlib.Core.Logic.{◌↔◌}
use mathlib.Core.Bool.{Bool, true, false}
use native.Mathlib.Omega.{arith}
use hap_resigner.Prelude.Tests.{ltb}

pub data ℤ : Type 0 where
  pos : ℕ → ℤ
  negsuc : ℕ → ℤ

-- `a < b`.
unfoldable pub ltℤ : ℤ → ℤ → Bool
ltℤ (pos a) (pos b) = ltb a b
ltℤ (pos a) (negsuc b) = false
ltℤ (negsuc a) (pos b) = true
ltℤ (negsuc a) (negsuc b) = ltb b a

unfoldable pub IsAtMost : ℤ → ℤ → Type 0
IsAtMost (pos a) (pos b) = a ≤ b
IsAtMost (pos a) (negsuc b) = ⊥
IsAtMost (negsuc a) (pos b) = Unit {0}
IsAtMost (negsuc a) (negsuc b) = b ≤ a

pub ltℤ_iff : (a b : ℤ) → (ltℤ b a ≡ false) ↔ IsAtMost a b
unfolding ltℤ IsAtMost
ltℤ_iff (pos a) (pos b) = ground arith
ltℤ_iff (pos a) (negsuc b) = ground arith
ltℤ_iff (negsuc a) (pos b) = ground arith
ltℤ_iff (negsuc a) (negsuc b) = ground arith
