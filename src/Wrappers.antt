-- ===== src/Wrappers.antt =====
-- wrappers.go: `MetaEnv` and `MaxStepsEnv`, which wrap an `Env`. `NumRuns`, `ActionSize` and
-- `MaxSteps` are taken to be no negative numbers.
pub mod MaxSteps
pub mod Meta
mod Tests
use trpo.Prelude.{
  ℕ, ◌+◌, ◌-◌, List, [], ◌∷◌, ◌++◌, Bool, true, false, not, ◌&&◌, Option, none, some, replicate,
  ltb, ◌==◌, if◌then◌else◌,
}
use trpo.Prelude.Float.{Float}
use trpo.Prelude.Failure.{Error, text}
use trpo.Env.{StepOut, Env}

pub record MaxStepsEnv (S : Type 0) : Type 0 where
  pub inner : S
  pub max_steps : ℕ
  pub steps : ℕ

pub record MetaEnv (S : Type 0) : Type 0 where
  pub inner : S
  pub num_runs : ℕ
  pub action_size : ℕ
  pub reward_all : Bool
  pub runs_remaining : ℕ

module _ {F S : Type 0} (env : Env F S) where
  pub max_steps_reset : MaxStepsEnv S → List F × Option Error × MaxStepsEnv S
  max_steps_reset m =
      let (obs, e, s) = env.reset m.inner in (obs, e, record m { inner = s; steps = 0 })

  pub max_steps_step : MaxStepsEnv S → List F → StepOut F × MaxStepsEnv S
  max_steps_step m action =
      let (o, s) = env.step m.inner action in
      let steps = m.steps + 1 in
      (
        record o { done = if steps == m.max_steps then true else o.done },
        record m { inner = s; steps = steps },
      )

module _ {F S : Type 0} ⦃fl : Float F⦄ (env : Env F S) where
  pub meta_reset : MetaEnv S → List F × Option Error × MetaEnv S
  meta_reset m =
      let (obs, e, s) = env.reset m.inner in
      (
        elim e [ some _ ↦ obs | none ↦ obs ++ replicate (m.action_size + 2) (fl.of_ℕ 0) ],
        e,
        record m { inner = s; runs_remaining = m.num_runs },
      )

  -- The end of `Step`: the reward is hidden, and the observation gets its tail.
  meta_finish : MetaEnv S → List F → List F → F → Bool → F → StepOut F × MetaEnv S
  meta_finish m act obs rew done mark = (
    record {
      obs = (obs ++ act) ++ (rew ∷ mark ∷ []);
      rew = if not m.reward_all && ltb 1 m.runs_remaining then fl.of_ℕ 0 else rew;
      done = done;
      error = none;
    },
    m,
  )

  -- The branch of `Step` on which the sub-episode is done; `m` has its new state and count.
  meta_end_run : MetaEnv S → List F → StepOut F → StepOut F × MetaEnv S
  meta_end_run m act o =
      if m.runs_remaining == 0
      then meta_finish m act o.obs o.rew true (fl.of_ℕ 1)
      else let (obs, e, s) = env.reset m.inner in
        let m' : MetaEnv S = record m { inner = s } in
        elim e [
          | some bad ↦ (record { obs = obs; rew = o.rew; done = false; error = some bad }, m')
          | none ↦ meta_finish m' act obs o.rew false (fl.of_ℕ 1)
        ]

  abbrev pub sub_episodes_done : Error
  sub_episodes_done = text "step: done sub-episodes in meta-environment"

  pub meta_step : MetaEnv S → List F → StepOut F × MetaEnv S
  unfolding meta_finish meta_end_run
  meta_step m act =
      if m.runs_remaining == 0
      then (record { obs = []; rew = fl.of_ℕ 0; done = false; error = some sub_episodes_done }, m)
      else let (o, s) = env.step m.inner act in
        let m' : MetaEnv S = record m { inner = s } in
        elim o.error [
          | some bad ↦ (o, m')
          | none ↦
              if o.done
              then meta_end_run (record m' { runs_remaining = m.runs_remaining - 1 }) act o
              else meta_finish m' act o.obs o.rew o.done (fl.of_ℕ 0)
        ]
