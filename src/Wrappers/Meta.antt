-- ===== src/Wrappers/Meta.antt =====
-- `MetaEnv` (wrappers.go) against the wrapped environment, started again after each sub-episode.
use trpo.Prelude.{
  ℕ, ◌+◌, ◌-◌, ◌<◌, ◌≡◌, refl, ap₂, subst, ◌≢◌, List, [], ◌∷◌, ◌++◌, map, Bool, true, false, not,
  ◌&&◌, none, arith, length, length-append, length-replicate, replicate, All, ◌∙◌, ◌==◌, ltb,
  if◌then◌else◌,
}
use trpo.Prelude.Float.{Float}
use trpo.Env.{StepOut, Env, run}
use trpo.Wrappers.{MetaEnv, meta_reset, meta_step}

abbrev pub IsClean : {F : Type 0} → List (StepOut F) → Type 0
IsClean = All λ o. o.error ≡ none

abbrev pub count_done : {F : Type 0} → List (StepOut F) → ℕ
count_done [] = 0
count_done (o ∷ os) = (if o.done then 1 else 0) + count_done os

abbrev pub any_done : {F : Type 0} → List (StepOut F) → Bool
any_done [] = false
any_done (o ∷ os) = if o.done then true else any_done os

length-tail :
    {F : Type 0} (obs act : List F) (x y : F)
    → length ((obs ++ act) ++ (x ∷ y ∷ [])) ≡ length obs + length act + 2
length-tail obs act x y =
    omega (arith, length-append (obs ++ act) (x ∷ y ∷ []), length-append obs act)

module _ {F S : Type 0} ⦃fl : Float F⦄ (env : Env F S) where
  -- The plain environment, reset whenever an episode ends.
  abbrev pub endless : S → List F → StepOut F × S
  endless s act = let (o, s') = env.step s act in (o, if o.done then (env.reset s').2 else s')

  -- The rewards of a plain run in which `left` sub-episodes remain: hidden as long as more than one
  -- remains after the step.
  abbrev pub visible : Bool → ℕ → List (StepOut F) → List F
  visible all left [] = []
  visible all left (o ∷ os) =
      let left' = left - (if o.done then 1 else 0) in
      (if not all && ltb 1 left' then fl.of_ℕ 0 else o.rew) ∷ visible all left' os

  record IsStep (m : MetaEnv S) (act : List F) (o : StepOut F) (m' : MetaEnv S) : Type 0 where
    pub some_left : 0 < m.runs_remaining
    pub counted :
        m'.runs_remaining + (if (env.step m.inner act).0.done then 1 else 0) ≡ m.runs_remaining
    pub finished : o.done ≡ (m'.runs_remaining == 0)
    pub reward : o.rew ≡ (
        if not m.reward_all && ltb 1 m'.runs_remaining
        then fl.of_ℕ 0
        else (env.step m.inner act).0.rew)
    pub same : m'.reward_all ≡ m.reward_all
    pub state : o.done ≡ false → m'.inner ≡ (endless m.inner act).1

  meta_step-IsStep :
      (m : MetaEnv S) (act : List F)
      → (meta_step env m act).0.error ≡ none
      → IsStep m act (meta_step env m act).0 (meta_step env m act).1
  unfolding meta_step
  meta_step-IsStep m act clean = ground arith

  after_end :
      (m : MetaEnv S) (act : List F) → m.runs_remaining ≡ 0 → (meta_step env m act).0.error ≢ none
  unfolding meta_step
  after_end m act h = ground arith

  record IsRun (m m' : MetaEnv S) (outs plain : List (StepOut F)) : Type 0 where
    pub counted : m'.runs_remaining + count_done plain ≡ m.runs_remaining
    pub finished : any_done outs ≡ (m'.runs_remaining == 0)
    pub rewards : map (λ o. o.rew) outs ≡ visible m.reward_all m.runs_remaining plain

  IsRun-cons :
      (m : MetaEnv S) (a : List F) (o : StepOut F) (m₁ m' : MetaEnv S)
      (outs plain : List (StepOut F))
      → IsStep m a o m₁
      → 0 < m₁.runs_remaining
      → IsRun m₁ m' outs plain
      → IsRun m m' (o ∷ outs) ((env.step m.inner a).0 ∷ plain)
  IsRun-cons m a o m₁ m' outs plain st pos r = record {
    counted = omega (arith, st.counted, r.counted);
    finished = ground (arith, st.finished, r.finished);
    rewards = ap₂ ◌∷◌ (ground (arith, st.reward, st.counted)) (r.rewards ∙ rest);
  }
    where
      rest :
          visible m₁.reward_all m₁.runs_remaining plain
          ≡ visible m.reward_all
              (m.runs_remaining - (if (env.step m.inner a).0.done then 1 else 0))
              plain
      rest = ap₂ (λ b n. visible b n plain) st.same (omega (arith, st.counted))

  run-IsRun :
      (m : MetaEnv S) (acts : List (List F))
      → 0 < m.runs_remaining
      → IsClean (run (meta_step env) m acts).0
      → IsRun m
          (run (meta_step env) m acts).1
          (run (meta_step env) m acts).0
          (run endless m.inner acts).0
  unfolding run
  run-IsRun m [] pos clean = record {
    counted = omega arith;
    finished = ground arith;
    rewards = refl;
  }
  run-IsRun m (a ∷ []) pos (c, cs) =
      let st = meta_step-IsStep m a c in
      record {
        counted = omega (arith, st.counted);
        finished = ground (arith, st.finished);
        rewards = ground (arith, st.reward, st.counted);
      }
  run-IsRun m (a ∷ b ∷ rest) pos (c, (c', cs)) =
      let st = meta_step-IsStep m a c in
      let m₁ = (meta_step env m a).1 in
      let left = (meta_step-IsStep m₁ b c').some_left in
      let ih = run-IsRun m₁ (b ∷ rest) left (c', cs) in
      let r = run (meta_step env) m₁ (b ∷ rest) in
      IsRun-cons m a _ m₁ _ _ _ st left (
        subst (λ s. IsRun m₁ r.1 r.0 (run endless s (b ∷ rest)).0)
          (st.state (ground (arith, st.finished))) ih)

  -- Take a meta-episode of a positive number of runs: a `Reset`, then any actions, with no error
  -- from the steps. Compare it with the plain environment under the same actions, reset at each end of a
  -- sub-episode. The runs that remain and the sub-episodes that have ended add up to `NumRuns`; some
  -- step was done exactly when none remains; and the rewards are the plain ones, with those hidden
  -- (0) after which more than one run remains, unless `RewardAll` is set.
  pub meta_episode :
      (m : MetaEnv S) (acts : List (List F))
      → 0 < m.num_runs
      → IsClean (run (meta_step env) (meta_reset env m).2 acts).0
      → let (outs, end) = run (meta_step env) (meta_reset env m).2 acts in
        let plain = (run endless (env.reset m.inner).2 acts).0 in
        (end.runs_remaining + count_done plain ≡ m.num_runs)
        × (any_done outs ≡ (end.runs_remaining == 0))
        × (map (λ o. o.rew) outs ≡ visible m.reward_all m.num_runs plain)
  unfolding meta_reset
  meta_episode m acts pos clean =
      let r = run-IsRun (meta_reset env m).2 acts pos clean in (r.counted, r.finished, r.rewards)

  -- What the interface says of sizes: an observation without an error has `n` components.
  pub record HasSize (n : ℕ) : Type 0 where
    pub of_reset : (s : S) → (env.reset s).1 ≡ none → length (env.reset s).0 ≡ n
    pub of_step :
        (s : S) (act : List F) → (env.step s act).0.error ≡ none → length (env.step s act).0.obs ≡ n

  -- If observations of the wrapped environment have `n` components and the action has `ActionSize`,
  -- then the observations of the meta-environment from a `Reset` and a `Step` without an error have
  -- `n`, `ActionSize` and two components.
  pub meta_sizes :
      (n : ℕ) (m : MetaEnv S) (act : List F)
      → HasSize n
      → length act ≡ m.action_size
      → (meta_reset env m).1 ≡ none
      → (meta_step env m act).0.error ≡ none
      → (length (meta_reset env m).0 ≡ n + m.action_size + 2)
        × (length (meta_step env m act).0.obs ≡ n + m.action_size + 2)
  unfolding meta_reset meta_step
  meta_sizes n m act sizes h first good =
      let (o, s) = env.step m.inner act in
      let next = (env.reset s).0 in
      (
        rw first (
            omega (
              arith,
              sizes.of_reset m.inner first,
              length-append (env.reset m.inner).0 (replicate (m.action_size + 2) (fl.of_ℕ 0)),
              length-replicate (m.action_size + 2) (fl.of_ℕ 0),
            )),
        ground (
          arith,
          sizes.of_step m.inner act,
          sizes.of_reset s,
          length-tail o.obs act o.rew (fl.of_ℕ 0),
          length-tail o.obs act o.rew (fl.of_ℕ 1),
          length-tail next act o.rew (fl.of_ℕ 1),
        ),
      )
