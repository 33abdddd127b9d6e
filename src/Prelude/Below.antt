-- ===== src/Prelude/Below.antt =====
-- A test on all numbers below a bound.
use Prim.Native.Nat.{ℕ, zero, suc, ◌<◌}
use mathlib.Core.Path.{◌≡◌, ap, ◌∙◌}
use mathlib.Core.Bool.{Bool, true, ◌&&◌}
use native.Mathlib.Omega.{arith}
use native.Mathlib.Decide.{ℕ_discrete}

unfoldable pub all_below : ℕ → (ℕ → Bool) → Bool
all_below zero f = true
all_below (suc n) f = f n && all_below n f

pub all_below_lem : (n : ℕ) (f : ℕ → Bool) (k : ℕ) → all_below n f ≡ true → k < n → f k ≡ true
unfolding all_below
all_below_lem zero f k h p = absurd (omega arith)
all_below_lem (suc n) f k h p = elim (ℕ_discrete k n) [
  | yes e ↦ ap f e ∙ ground arith
  | no ne ↦ all_below_lem n f k (ground arith) (omega arith)
]
