-- ===== src/Env.antt =====
-- env.go: the interface `Env`. An environment is a state machine with a hidden state, in which also
-- its randomness lives; a method returns its results and the next state.
pub mod Space
pub mod Runs
pub mod Fits
pub mod Gym
pub mod Supported
mod Tests
pub mod Echo
use trpo.Prelude.{List, [], ◌∷◌, Bool, Option}
use trpo.Prelude.Failure.{Error}

-- The four results of `Step`. As in Go the first three have values beside an error.
pub record StepOut (F : Type 0) : Type 0 where
  pub obs : List F
  pub rew : F
  pub done : Bool
  pub error : Option Error

pub record Env (F S : Type 0) : Type 0 where
  pub reset : S → List F × Option Error × S
  pub step : S → List F → StepOut F × S

-- A sequence of calls of `Step`, one for each action.
unfoldable pub run {ℓ} :
    {A : Type ℓ} {F S : Type 0} → (S → A → StepOut F × S) → S → List A → List (StepOut F) × S
run step s [] = ([], s)
run step s (a ∷ rest) = let (o, s') = step s a in let (os, t) = run step s' rest in (o ∷ os, t)
