-- ===== src/Trpo.antt =====
-- anypg/trpo.go: the size of a step and the line search, from a natural gradient. The mean improvement and
-- the mean divergence of a step, which are computed over the rollouts, are parameters.
pub mod LineSearch
mod Tests
use trpo.Prelude.{
  ℕ, zero, suc, ◌+◌, List, [], ◌∷◌, ◌++◌, Bool, true, false, not, ◌&&◌, ◌||◌, Option, none, some,
  ◌==◌, length, if◌then◌else◌,
}
use trpo.Prelude.Float.{Float}
use trpo.NaturalPg.{VectorApi, scale_grad, dot_grad, NaturalPgRes}

pub record Trpo (F : Type 0) : Type 0 where
  pub target_kl : F
  pub line_search_decay : F
  pub max_line_search : ℕ

-- `DefaultMaxLineSearch`
abbrev pub default_max_line_search : ℕ
default_max_line_search = 20

module _ {F : Type 0} ⦃fl : Float F⦄ where
  -- `DefaultTargetKL` and `DefaultLineSearchDecay`
  abbrev pub default_target_kl : F
  default_target_kl = fl.over (fl.of_ℕ 1) (fl.of_ℕ 100)

  abbrev pub default_line_search_decay : F
  default_line_search_decay = fl.over (fl.of_ℕ 7) (fl.of_ℕ 10)

  abbrev pub target_kl_of : Trpo F → F
  target_kl_of t = if fl.differs t.target_kl (fl.of_ℕ 0) then t.target_kl else default_target_kl

  abbrev pub line_search_decay_of : Trpo F → F
  line_search_decay_of t =
      if fl.differs t.line_search_decay (fl.of_ℕ 0)
      then t.line_search_decay
      else default_line_search_decay

  abbrev pub max_line_search_of : Trpo F → ℕ
  max_line_search_of t =
      if t.max_line_search == 0 then default_max_line_search else t.max_line_search

module _ {F V : Type 0} ⦃fl : Float F⦄ (api : VectorApi F V) (t : Trpo F) where
  -- `stepSize`: zero if the product is not positive; `none` is the panic of `dotGrad`.
  unfoldable pub step_size : (List V → List V) → List V → Option F
  step_size apply_fisher grad = elim (dot_grad api grad (apply_fisher grad)) [
    | none ↦ none
    | some dot_prod ↦ some (
        if fl.below dot_prod (fl.of_ℕ 0) || not (fl.differs dot_prod (fl.of_ℕ 0))
        then fl.of_ℕ 0
        else fl.sqrt (fl.over (fl.times (fl.of_ℕ 2) (target_kl_of t)) dot_prod))
  ]

  -- The end of `acceptable`, for the mean improvement and the mean divergence of a step.
  abbrev pub acceptable : F × F → Bool
  acceptable (improvement, kl) = fl.below (fl.of_ℕ 0) improvement && fl.below kl (target_kl_of t)

  -- The loop of `Run` with the rounds that are left, and what it gives to `LogLineSearch`.
  unfoldable pub line_search : (List V → F × F) → ℕ → List V → List V × List (F × F)
  line_search mean zero grad = (grad, [])
  line_search mean (suc n) grad =
      let stats = mean grad in
      let (found, logs) = line_search mean n (scale_grad api (line_search_decay_of t) grad) in
      if acceptable stats then (grad, stats ∷ []) else (found, stats ∷ logs)

  -- `Run` from the result of the natural gradient
  unfoldable pub run_trpo :
      (List V → List V) → (List V → F × F) → NaturalPgRes V → Option (List V × List (F × F))
  unfolding step_size line_search
  run_trpo apply_fisher mean res =
      if res.zero_grad then some (res.grad, []) else elim (step_size apply_fisher res.grad) [
        | none ↦ none
        | some size ↦ some (line_search mean (max_line_search_of t) (scale_grad api size res.grad))
      ]

-- The loop of `steppedPolicy`: the step with the parameters of the copied policy for those of the policy.
-- A parameter without a counterpart in the copy is an index out of range.
unfoldable pub move_step : {V : Type 0} → (ℕ → Option V) → List ℕ → List ℕ → Option (List (ℕ × V))
move_step step [] new_params = some []
move_step step (old ∷ old_params) [] = elim (step old) [
  | none ↦ move_step step old_params []
  | some v ↦ none
]
move_step step (old ∷ old_params) (new ∷ new_params) =
    let rest = move_step step old_params new_params in
    elim (step old) [
      | none ↦ rest
      | some v ↦ elim rest [ none ↦ none | some moved ↦ some ((new, v) ∷ moved) ]
    ]

-- `steppedPolicy` up to `AddToVars`, for a step with `size` parameters; `none` is a panic.
unfoldable pub stepped_policy :
    {V : Type 0} → (ℕ → Option V) → ℕ → List ℕ → List ℕ → Option (List (ℕ × V))
unfolding move_step
stepped_policy step size old_params new_params = elim (move_step step old_params new_params) [
  | none ↦ none
  | some moved ↦ if length moved == size then some moved else none
]
