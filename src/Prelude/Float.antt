-- ===== src/Prelude/Float.antt =====
-- What the program does with a `float64`: constants, arithmetic, and tests. The carrier and its
-- operations are a parameter of the model; a theorem that needs a law takes it as a hypothesis.
use Prim.Native.Nat.{ℕ}
use mathlib.Core.Bool.{Bool}

pub record Float (F : Type 0) : Type 0 where
  pub of_ℕ : ℕ → F
  pub plus : F → F → F
  pub minus : F → F → F
  pub times : F → F → F
  pub over : F → F → F
  pub sqrt : F → F
  -- `x != y`
  pub differs : F → F → Bool
  -- `x < y`
  pub below : F → F → Bool
  -- `int(math.Ceil(x))`, of a number that is not negative
  pub ceil : F → ℕ
