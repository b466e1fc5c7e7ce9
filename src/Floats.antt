-- ===== src/Floats.antt =====
-- `double`: the type and the operations that the sources use, as an interface.
use rosetta_recorder_cpp.Prelude.{ℕ, Bool}

-- Every literal of the sources (0.0, 1.0, 2.0, 30.0, 300.0) is a whole number.
pub record Floats : Type 1 where
  pub Double : Type 0
  pub of_ℕ : ℕ → Double
  -- `a < b`, `a <= b`, `a - b` and `a / b`.
  pub lt : Double → Double → Bool
  pub le : Double → Double → Bool
  pub minus : Double → Double → Double
  pub over : Double → Double → Double
