-- ===== src/Base/Bytes.antt =====
-- A property of every byte, by evaluation.
use Prim.Native.Nat.{ℕ, zero, suc, ◌<◌}
use mathlib.Core.Path.{◌≡◌}
use mathlib.Core.Bool.{Bool, true, ◌&&◌}
use native.Mathlib.Omega.{arith}

module _ (test : ℕ → Bool) where
  -- The test holds of the numbers below `bound`.
  unfoldable pub holds_below : ℕ → Bool
  holds_below zero = true
  holds_below (suc bound) = holds_below bound && test bound

  pub holds_below_lem : (bound k : ℕ) → k < bound → holds_below bound ≡ true → test k ≡ true
  unfolding holds_below
  holds_below_lem zero k small every = absurd (omega arith)
  holds_below_lem (suc bound) k small every = ground (arith, holds_below_lem bound k)
