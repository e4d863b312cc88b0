-- ===== src/Wrappers/MaxSteps.antt =====
-- `MaxStepsEnv` (wrappers.go): it cuts an episode after `MaxSteps` steps, and is transparent
-- otherwise.
use trpo.Prelude.{
  ℕ, suc, ◌+◌, ◌-◌, ◌≤◌, ◌<◌, ◌≡◌, refl, ap, List, [], ◌∷◌, true, arith, Bool-cases, inl, inr, ◌∙◌,
  ◌==◌, if◌then◌else◌,
}
use trpo.Env.{StepOut, Env, run}
use trpo.Wrappers.{MaxStepsEnv, max_steps_reset, max_steps_step}

-- The outputs of an unlimited run with the `done` of the step number `limit` set, after `k` steps.
abbrev pub cut_at : {F : Type 0} → ℕ → ℕ → List (StepOut F) → List (StepOut F)
cut_at limit k [] = []
cut_at limit k (o ∷ os) =
    record o { done = if k + 1 == limit then true else o.done } ∷ cut_at limit (k + 1) os

-- The steps of an episode: as far as the first `done`.
abbrev pub episode_length : {F : Type 0} → List (StepOut F) → ℕ
episode_length [] = 0
episode_length (o ∷ os) = if o.done then 1 else suc (episode_length os)

episode_length-cut_at :
    {F : Type 0} (limit k : ℕ) (os : List (StepOut F))
    → k < limit
    → episode_length (cut_at limit k os) ≤ limit - k
episode_length-cut_at limit k [] h = omega arith
episode_length-cut_at limit k (o ∷ os) h = elim (Bool-cases (k + 1 == limit)) [
  | inl last ↦ rw last (omega arith)
  | inr more ↦ rw more (ground (arith, episode_length-cut_at limit (k + 1) os (ground arith)))
]

cut_at-zero : {F : Type 0} (k : ℕ) (os : List (StepOut F)) → cut_at 0 k os ≡ os
cut_at-zero k [] = refl
cut_at-zero k (o ∷ os) = rw (cut_at-zero (k + 1) os) (ground arith)

module _ {F S : Type 0} (env : Env F S) where
  run-max_steps :
      (m : MaxStepsEnv S) (acts : List (List F))
      → (run (max_steps_step env) m acts).0
        ≡ cut_at m.max_steps m.steps (run env.step m.inner acts).0
  unfolding run max_steps_step
  run-max_steps m [] = refl
  run-max_steps m (a ∷ rest) =
      let (o, s) = env.step m.inner a in
      ap (◌∷◌ (record o { done = if m.steps + 1 == m.max_steps then true else o.done }))
        (run-max_steps (record m { inner = s; steps = m.steps + 1 }) rest)

  -- After `Reset` and any number of steps, the outputs are those of the wrapped environment after
  -- its own `Reset`, errors included, except that the step with the number `MaxSteps` is done.
  pub max_steps_episode :
      (m : MaxStepsEnv S) (acts : List (List F))
      → (run (max_steps_step env) (max_steps_reset env m).2 acts).0
        ≡ cut_at m.max_steps 0 (run env.step (env.reset m.inner).2 acts).0
  unfolding max_steps_reset
  max_steps_episode m acts = run-max_steps (max_steps_reset env m).2 acts

  -- If `MaxSteps` is positive, an episode after `Reset` has at most `MaxSteps` steps up to its first
  -- `done`, whatever the wrapped environment does.
  pub max_steps_bound :
      (m : MaxStepsEnv S) (acts : List (List F))
      → 0 < m.max_steps
      → episode_length (run (max_steps_step env) (max_steps_reset env m).2 acts).0 ≤ m.max_steps
  max_steps_bound m acts h = rw (max_steps_episode m acts) (
      omega
        (arith, episode_length-cut_at m.max_steps 0 (run env.step (env.reset m.inner).2 acts).0 h))

  -- A `MaxSteps` of 0 sets no limit: the outputs are those of the wrapped environment.
  pub max_steps_unlimited :
      (m : MaxStepsEnv S) (acts : List (List F))
      → m.max_steps ≡ 0
      → (run (max_steps_step env) (max_steps_reset env m).2 acts).0
        ≡ (run env.step (env.reset m.inner).2 acts).0
  max_steps_unlimited m acts h = max_steps_episode m acts ∙ rw h (cut_at-zero 0 _)
