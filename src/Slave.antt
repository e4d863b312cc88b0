-- ===== src/Slave.antt =====
-- anyes/slave.go: a slave that runs a recurrent policy on an environment. Its model parameters, their
-- serialization, the policy, the noise and the clock are parameters; a sampler and its randomness are in
-- the step of the policy.
pub mod Running
pub mod Anynet
mod Tests
use trpo.Prelude.{
  ℕ, zero, suc, ◌+◌, List, [], ◌∷◌, Bool, true, false, not, ◌&&◌, ◌||◌, Option, none, some, ◌==◌,
  ltb, if◌then◌else◌,
}
use trpo.Prelude.Float.{Float}
use trpo.Prelude.Failure.{Error, ctx, Result, ok, err, panic, add_ctx}
use trpo.Noise.{RandApi}
use trpo.Noise.Group.{NoiseGroup, fresh_group, group_init}
use trpo.Env.{Env, StepOut}
use trpo.Master.{Rollout}

-- `MaxTime` is in units of the clock.
pub record StopConds : Type 0 where
  pub max_time : ℕ
  pub max_steps : ℕ

-- What is called on the parameters, over their values `W` and serialized forms `D`; `mutate` is
-- `SplitMutation` followed by `AddToVars`,
-- `none` if they panic.
pub record ParamsApi (F W D : Type 0) : Type 0 where
  pub data_of : W → Result D
  pub set_data : D → W → Option Error × W
  pub len : W → ℕ
  pub mutate : W → List F → Option W

-- The policy over its states `P`, with the sampler.
pub record Policy (F W P : Type 0) : Type 0 where
  pub begin : W → P
  pub step : W → P → List F → List F × P

-- How a call of `Run` ends: with a rollout, which is `nil` if the parameters cannot be read, and an
-- error, or with a panic, after which the program is lost.
pub data Ended (F : Type 0) : Type 0 where
  ends : Option (Rollout F) → Option Error → Ended F
  faults : Ended F

-- `defer essentials.AddCtxTo("run AnynetSlave", &err)`
abbrev pub run_ctx : Option Error → Option Error
run_ctx none = none
run_ctx (some e) = some (ctx "run AnynetSlave" e)

-- `err == nil` in the deferred function
abbrev pub first_error : Option Error → Option Error → Option Error
first_error none sub = sub
first_error (some e) sub = some e

abbrev pub new_rollout : {F : Type 0} ⦃fl : Float F⦄ → F → ℕ → Rollout F
new_rollout ⦃fl⦄ scale seed = record {
  scale = scale;
  seed = seed;
  reward = fl.of_ℕ 0;
  steps = 0;
  early_stop = true;
}

module _ {F S W P : Type 0} ⦃fl : Float F⦄ (env : Env F S) (policy : Policy F W P) where
  open fl use {plus}

  -- The loop; `late` tells whether the timeout has fired when a number of steps has been taken, and
  -- without `MaxTime` no timeout is set. `none` means that the fuel ran out.
  pub run_loop :
      (ℕ → Bool)
      → StopConds
      → W
      → ℕ
      → Rollout F
      → P
      → List F
      → S
      → Option ((Rollout F × Option Error) × S)
  run_loop late stop w zero r state obs s = none
  run_loop late stop w (suc fuel) r state obs s =
      let (action, state') = policy.step w state obs in
      let (o, s') = env.step s action in
      let r' = record r { reward = plus r.reward o.rew; steps = r.steps + 1 } in
      let rest = run_loop late stop w fuel r' state' o.obs s' in
      if ltb r.steps stop.max_steps || (stop.max_steps == 0)
      then (if not (stop.max_time == 0) && late r.steps then some ((r, none), s) else elim o.error [
        | some e ↦ some ((r, some e), s')
        | none ↦ if o.done then some ((record r' { early_stop = false }, none), s') else rest
      ])
      else some ((r, none), s)

  -- The body of `Run` with the mutated parameters.
  unfoldable pub run_mutated :
      ℕ → (ℕ → Bool) → StopConds → F → ℕ → W → S → Option ((Rollout F × Option Error) × S)
  unfolding run_loop
  run_mutated fuel late stop scale seed w s =
      let (obs, problem, s') = env.reset s in
      elim problem [
        | some e ↦ some ((new_rollout scale seed, some e), s')
        | none ↦ run_loop late stop w fuel (new_rollout scale seed) (policy.begin w) obs s'
      ]

module _ {F S W P D : Type 0} ⦃fl : Float F⦄ (env : Env F S) (policy : Policy F W P)
    (params : ParamsApi F W D) (gen : F → ℕ → ℕ → Option (List F)) where
  -- `Run`: how it ends, the environment and the parameters. `none` means that the fuel ran out.
  unfoldable pub slave_run : ℕ → (ℕ → Bool) → StopConds → F → ℕ → W → S → Option (Ended F × S × W)
  unfolding run_mutated
  slave_run fuel late stop scale seed w s = elim (params.data_of w) [
    | panic ↦ some (faults, s, w)
    | err e ↦ some (ends none (run_ctx (some e)), s, w)
    | ok old ↦ elim (gen scale seed (params.len w)) [
      | none ↦ some (faults, s, w)
      | some mutation ↦ elim (params.mutate w mutation) [
        | none ↦ some (faults, s, w)
        | some w' ↦ elim (run_mutated env policy fuel late stop scale seed w' s) [
          | none ↦ none
          | some ((r, problem), s') ↦
              let (sub, w'') = params.set_data old w' in
              some (ends (some r) (run_ctx (first_error problem sub)), s', w'')
        ]
      ]
    ]
  ]

module _ {F R W D : Type 0} ⦃fl : Float F⦄ (rand : RandApi F R) (params : ParamsApi F W D) where
  -- `Init` of a slave, whose group of noise may be `nil`.
  unfoldable pub slave_init :
      W → Option (NoiseGroup F) → D → ℕ → ℕ → Result (Unit {0}) × W × Option (NoiseGroup F)
  unfolding group_init
  slave_init w group d seed size =
      let (problem, w') = params.set_data d w in
      let (r, group') =
        group_init rand seed size (elim group [ none ↦ fresh_group | some g ↦ g ]) in
      elim problem [
        | some e ↦ (err (ctx "init AnynetSlave" e), w', group)
        | none ↦ (add_ctx "init AnynetSlave" r, w', some group')
      ]
