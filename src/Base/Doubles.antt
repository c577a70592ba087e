-- ===== src/Base/Doubles.antt =====
-- Floating-point numbers. What `double` computes is the machine's, so the type and the operations
-- that the source uses are a parameter of the definitions that use them.
use mathlib.Core.Bool.{Bool}
use Prim.Native.Nat.{ℕ}

pub record Doubles : Type 1 where
  pub Double : Type 0
  pub of_ℕ : ℕ → Double
  pub add : Double → Double → Double
  pub sub : Double → Double → Double
  pub mul : Double → Double → Double
  pub div : Double → Double → Double
  pub lt : Double → Double → Bool
