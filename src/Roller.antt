-- ===== src/Roller.antt =====
-- rnn_roller.go: an agent is run through environments, one batch with the environments that are not done
-- for each step. The block with its states `P`, the sampler with its randomness `G` and the tapes are
-- parameters; what `batchStep` does at once for several environments is independent.

pub mod Lanes
mod Tests
pub mod Rolling
use trpo.Prelude.{
  ℕ, zero, suc, ◌+◌, ◌*◌, ◌/◌, List, [], ◌∷◌, ◌++◌, map, Bool, true, false, Option, none, some,
  take, drop, length, replicate, ltb, ◌==◌, if◌then◌else◌,
}
use trpo.Prelude.Float.{Float}
use trpo.Prelude.Failure.{Error, Result, panic, err, ok, ◌>>=◌, add_ctx}
use trpo.Env.{Env, StepOut}
use trpo.Rewards.{Batch, distribute}
use trpo.RolloutSet.{RolloutSet, TapeMaker}

-- `NumPresent`
abbrev pub num_present : List Bool → ℕ
num_present [] = 0
num_present (true ∷ ps) = suc (num_present ps)
num_present (false ∷ ps) = num_present ps

-- `anyrnn.Block` and `Sampler` on batches
pub record BlockApi (F P G : Type 0) : Type 0 where
  pub start : ℕ → P
  pub present : P → List Bool
  pub reduce : List Bool → P → P
  pub step : P → List F → List F × P
  pub sample : G → List F → ℕ → List F × G

-- What is written to the three tapes.
pub record Tapes (F : Type 0) : Type 0 where
  pub inputs : List (Batch F)
  pub actions : List (Batch F)
  pub agent_outs : List (Batch F)

abbrev pub no_tapes : {F : Type 0} → Tapes F
no_tapes = record { inputs = []; actions = []; agent_outs = [] }

-- The actions for the environments that are present, `size` components each: the first loop of
-- `rolloutStep`.
abbrev pub split_actions : {F : Type 0} → ℕ → List Bool → List F → List (List F)
split_actions size [] packed = []
split_actions size (true ∷ ps) packed = take size packed ∷ split_actions size ps (drop size packed)
split_actions size (false ∷ ps) packed = split_actions size ps packed

-- The second loop of `rolloutStep`: it stops at the first error, and an environment that is done is not
-- present any more.
unfoldable pub join_observations : {F : Type 0} → List Bool → List (StepOut F) → Result (Batch F)
join_observations [] outs = ok (record { packed = []; present = [] })
join_observations (false ∷ ps) outs = join_observations ps outs >>= λ b.
    ok (record { packed = b.packed; present = false ∷ b.present })
join_observations (true ∷ ps) [] = panic
join_observations (true ∷ ps) (o ∷ outs) =
    let rest = join_observations ps outs in
    elim o.error [
      | some e ↦ err e
      | none ↦ rest >>= λ b. ok (
          if o.done
          then record { packed = b.packed; present = false ∷ b.present }
          else record { packed = o.obs ++ b.packed; present = true ∷ b.present })
    ]

module _ {F S : Type 0} (env : Env F S) where
  -- `rolloutReset`
  unfoldable pub rollout_reset : List S → Result (Batch F × List S)
  rollout_reset [] = ok (record { packed = []; present = [] }, [])
  rollout_reset (s ∷ envs) =
      let rest = rollout_reset envs in
      let (obs, problem, s') = env.reset s in
      elim problem [
        | some e ↦ err e
        | none ↦ rest >>= λ r.
            ok (record { packed = obs ++ r.0.packed; present = true ∷ r.0.present }, s' ∷ r.1)
      ]

  -- `batchStep` of the environments that are present, and all environments after it
  unfoldable pub batch_step : List Bool → List S → List (List F) → List (StepOut F) × List S
  batch_step [] envs actions = ([], envs)
  batch_step (false ∷ ps) [] actions = ([], [])
  batch_step (false ∷ ps) (s ∷ envs) actions =
      let (outs, envs') = batch_step ps envs actions in (outs, s ∷ envs')
  batch_step (true ∷ ps) [] actions = ([], [])
  batch_step (true ∷ ps) (s ∷ envs) [] = ([], s ∷ envs)
  batch_step (true ∷ ps) (s ∷ envs) (a ∷ actions) =
      let (o, s') = env.step s a in
      let (outs, envs') = batch_step ps envs actions in (o ∷ outs, s' ∷ envs')

  -- `rolloutStep`: the next batch, the rewards and the environments
  unfoldable pub rollout_step : Batch F → List S → Result ((Batch F × List F) × List S)
  unfolding batch_step join_observations
  rollout_step actions envs =
      let size = length actions.packed / num_present actions.present in
      let (outs, envs') =
        batch_step actions.present envs (split_actions size actions.present actions.packed) in
      join_observations actions.present outs >>= λ obs. ok ((obs, map (λ o. o.rew) outs), envs')

module _ {F S P G : Type 0} ⦃fl : Float F⦄ (env : Env F S) (block : BlockApi F P G) where
  -- The loop of `rolloutChans`; `none` means that the fuel ran out.
  unfoldable pub rollout_loop :
      ℕ
      → Batch F
      → P
      → G
      → List S
      → List (List F)
      → Tapes F
      → Option (Result ((List (List F) × Tapes F) × List S))
  unfolding rollout_step
  rollout_loop zero batch state g envs rewards tapes = none
  rollout_loop (suc fuel) batch state g envs rewards tapes =
      if num_present batch.present == 0
      then some (ok ((rewards, tapes), envs))
      else (let n = num_present batch.present in
          let reduced =
            if ltb n (num_present (block.present state))
            then block.reduce batch.present state
            else state in
          let (out, state') = block.step reduced batch.packed in
          let (action, g') = block.sample g out n in
          let action_batch : Batch F = record { packed = action; present = batch.present } in
          let tapes' : Tapes F = record {
            inputs = tapes.inputs ++ batch ∷ [];
            actions = tapes.actions ++ action_batch ∷ [];
            agent_outs = tapes.agent_outs ++ record { packed = out; present = batch.present } ∷ [];
          } in
          elim (rollout_step env action_batch envs) [
            | panic ↦ some panic
            | err e ↦ some (err e)
            | ok ((batch', reward_batch), envs') ↦
                elim (distribute rewards batch.present reward_batch) [
                  | panic ↦ some panic
                  | err e ↦ some (err e)
                  | ok rewards' ↦ rollout_loop fuel batch' state' g' envs' rewards' tapes'
                ]
          ])

  -- `rolloutChans`
  unfoldable pub rollout_chans :
      ℕ → G → List S → Option (Result ((List (List F) × Tapes F) × List S))
  unfolding rollout_loop rollout_reset
  rollout_chans fuel g [] = some (ok (([], no_tapes), []))
  rollout_chans fuel g (s ∷ envs) = elim (rollout_reset env (s ∷ envs)) [
    | panic ↦ some panic
    | err e ↦ some (err e)
    | ok (batch, envs') ↦
        rollout_loop fuel batch (block.start (length batch.present)) g envs'
          (replicate (length batch.present) []) no_tapes
  ]

  -- `Rollout`
  unfoldable pub rollout :
      {T : Type 0}
      → TapeMaker T F
      → TapeMaker T F
      → TapeMaker T F
      → ℕ
      → G
      → List S
      → Option (Result (RolloutSet T F × List S))
  unfolding rollout_chans
  rollout make_inputs make_actions make_agent_outs fuel g envs = elim (rollout_chans fuel g envs) [
    | none ↦ none
    | some result ↦ some (
        add_ctx "rollout RNN" (
          result >>= λ r. ok (
            record {
              inputs = some (make_inputs r.0.1.inputs);
              actions = some (make_actions r.0.1.actions);
              rewards = r.0.0;
              agent_outs = some (make_agent_outs r.0.1.agent_outs);
            },
            r.1,
          )))
  ]
