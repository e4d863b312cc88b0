-- ===== src/Worker/Rolling.antt =====
-- `runRollout` (anya3c/rollout.go): the frames of a rollout, and how it ends.
use trpo.Prelude.{
  ℕ, zero, suc, ◌+◌, ◌≤◌, ◌<◌, ◌≡◌, ◌⊎◌, inl, inr, refl, sym, ◌∙◌, subst, List, [], ◌∷◌, ◌++◌,
  append-nil, append_assoc, map, foldl, Bool, true, false, Option, none, some, length,
  length-append, ◌==◌, ltb, ◌||◌, if◌then◌else◌, Bool-cases, Option-cases, arith,
}
use trpo.Prelude.Float.{Float}
use trpo.Prelude.Failure.{Error}
use trpo.Env.{Env, StepOut, run}
use trpo.Worker.{
  Blocks, Res, AgentApi, Worker, Rollout, Rolled, fails, gives, apply_blocks, step_agent, step_env,
  add_frame, rollout_loop, run_rollout,
}

more_steps :
    (t max_steps : ℕ)
    → 0 < max_steps
    → ltb t max_steps ≡ false
    → (ltb t max_steps || (max_steps == 0)) ≡ false
more_steps t max_steps pos full = ground (arith, full)

fewer_steps :
    (t max_steps : ℕ) → ltb t max_steps ≡ true → (ltb t max_steps || (max_steps == 0)) ≡ true
fewer_steps t max_steps short = rw short refl

-- Whether the last step was done, and `done` if there was none.
abbrev pub last_done : {F : Type 0} → Bool → List (StepOut F) → Bool
last_done done [] = done
last_done done (o ∷ outs) = last_done o.done outs

module _ {F S L P G : Type 0} ⦃fl : Float F⦄ (env : Env F S) (api : AgentApi F L P G) where
  -- A rollout that began with the frames of `r`, in round `t`, with the environment in `s`, and its end.
  pub record Extends (max_steps t : ℕ) (r : Rollout F P) (s : S) (sum : F) (idx : ℕ) (done : Bool)
      (r' : Rollout F P) (w : Worker F S L P G) : Type 0 where
    -- the actions that were sampled, and what the environment returned for them
    pub actions : List (List F)
    pub sampled : r'.sampled ≡ r.sampled ++ actions
    pub rewards : r'.rewards ≡ r.rewards ++ map (λ o. o.rew) (run env.step s actions).0
    pub played : w.env ≡ (run env.step s actions).1
    pub outs : length r'.outs ≡ length r.outs + length actions
    pub beginning : r'.beginning ≡ r.beginning
    -- the counters of the worker
    pub steps : w.step_idx ≡ idx + length actions
    pub summed : w.reward_sum ≡ foldl fl.plus sum (map (λ o. o.rew) (run env.step s actions).0)
    pub within : t + length actions ≤ max_steps
    pub ended : (w.env_done ≡ true) ⊎ (t + length actions ≡ max_steps)
    pub last : w.env_done ≡ last_done done (run env.step s actions).0

  abbrev pub Ends : ℕ → ℕ → Rollout F P → S → F → ℕ → Bool → Option (Rolled F S L P G) → Type 0
  Ends max_steps t r s sum idx done out =
      ((e : Error) × (w : Worker F S L P G) × (out ≡ some (fails e w)))
      ⊎ ((r' : Rollout F P) × (w : Worker F S L P G) × (out ≡ some (gives r' w))
          × Extends max_steps t r s sum idx done r' w)

  -- `StepAgent` leaves a result, and what it leaves alone.
  record Stepped (w w1 : Worker F S L P G) : Type 0 where
    res : Blocks (Res F P)
    has : w1.agent_res ≡ some res
    env_same : w1.env ≡ w.env
    sum_same : w1.reward_sum ≡ w.reward_sum
    idx_same : w1.step_idx ≡ w.step_idx
    done_same : w1.env_done ≡ w.env_done

  step_agent-some :
      (w : Worker F S L P G) (res : Blocks (Res F P))
      → w.agent_res ≡ some res
      → step_agent api w ≡ w
  unfolding step_agent
  step_agent-some w res has = ground (arith, has)

  abbrev applied : Worker F S L P G → Worker F S L P G
  applied w =
      let res = apply_blocks api w in
      record w {
        agent_res = some res;
        agent_state = record {
          base = res.base.state;
          actor = res.actor.state;
          critic = res.critic.state;
        };
      }

  step_agent-none : (w : Worker F S L P G) → w.agent_res ≡ none → step_agent api w ≡ applied w
  unfolding step_agent
  step_agent-none w has = ground (arith, has)

  step_agent-Stepped : (w : Worker F S L P G) → Stepped w (step_agent api w)
  step_agent-Stepped w = elim (Option-cases w.agent_res) [
    | inl nothing ↦ subst (Stepped w) (sym (step_agent-none w nothing)) (record {
      res = apply_blocks api w;
      has = refl;
      env_same = refl;
      sum_same = refl;
      idx_same = refl;
      done_same = refl;
    })
    | inr (res, has) ↦ subst (Stepped w) (sym (step_agent-some w res has)) (record {
      res = res;
      has = has;
      env_same = refl;
      sum_same = refl;
      idx_same = refl;
      done_same = refl;
    })
  ]

  -- The worker after a step without an error.
  abbrev moved : Worker F S L P G → G → StepOut F → S → Worker F S L P G
  moved w rand out s = record w {
    rand = rand;
    env = s;
    env_done = out.done;
    env_obs = out.obs;
    reward_sum = fl.plus w.reward_sum out.rew;
    agent_res = none;
    step_idx = w.step_idx + 1;
  }

  module _ (w : Worker F S L P G) (res : Blocks (Res F P)) (has : w.agent_res ≡ some res) where
    step_env-good :
        (env.step w.env (api.sample w.agent w.rand res.actor.output).0).0.error ≡ none
        → step_env env api w ≡ (
            let (action, rand) = api.sample w.agent w.rand res.actor.output in
            let (out, s) = env.step w.env action in
            some ((out.rew, action, none), moved w rand out s))
    unfolding step_env
    step_env-good good = ground (arith, has, good)

    step_env-bad :
        (e : Error)
        → (env.step w.env (api.sample w.agent w.rand res.actor.output).0).0.error ≡ some e
        → (reward : F) × (action : List F) × (w2 : Worker F S L P G) × (step_env env api w
            ≡ some ((reward, action, some e), w2))
    unfolding step_env
    step_env-bad e bad =
        let (action, rand) = api.sample w.agent w.rand res.actor.output in
        let (out, s) = env.step w.env action in
        (
          out.rew,
          action,
          record w { rand = rand; env = s; env_done = out.done },
          ground (arith, has, bad),
        )

  Extends-cons :
      (max_steps t : ℕ) (r r' : Rollout F P) (s : S) (sum : F) (idx : ℕ) (done : Bool)
      (w : Worker F S L P G) (out : Blocks (Res F P)) (action : List F)
      → let (o, s') = env.step s action in
        Extends max_steps
          (t + 1)
          (add_frame r out o.rew action)
          s'
          (fl.plus sum o.rew)
          (idx + 1)
          o.done
          r'
          w
        → Extends max_steps t r s sum idx done r' w
  unfolding run
  Extends-cons max_steps t r r' s sum idx done w out action h =
      let outs = length-append r.outs (out ∷ []) in
      record {
        actions = action ∷ h.actions;
        sampled = h.sampled ∙ append_assoc r.sampled (action ∷ []) h.actions;
        rewards = h.rewards ∙ append_assoc r.rewards (_ ∷ []) _;
        played = h.played;
        outs = omega (arith, h.outs, outs);
        beginning = h.beginning;
        steps = omega (arith, h.steps);
        summed = h.summed;
        within = omega (arith, h.within);
        ended = elim h.ended [ inl over ↦ inl over | inr full ↦ inr (omega (arith, full)) ];
        last = h.last;
      }

  Extends-Stepped :
      (max_steps t : ℕ) (r r' : Rollout F P) (w w1 w' : Worker F S L P G)
      → Stepped w w1
      → Extends max_steps t r w1.env w1.reward_sum w1.step_idx w1.env_done r' w'
      → Extends max_steps t r w.env w.reward_sum w.step_idx w.env_done r' w'
  Extends-Stepped max_steps t r r' w w1 w' st h =
      subst (λ s. Extends max_steps t r s w.reward_sum w.step_idx w.env_done r' w') st.env_same
        (subst (λ x. Extends max_steps t r w1.env x w.step_idx w.env_done r' w') st.sum_same
          (subst (λ i. Extends max_steps t r w1.env w1.reward_sum i w.env_done r' w') st.idx_same
            (subst (λ d. Extends max_steps t r w1.env w1.reward_sum w1.step_idx d r' w')
              st.done_same h)))

  Extends-stop :
      (max_steps t : ℕ) (r : Rollout F P) (w : Worker F S L P G)
      → t ≤ max_steps
      → (w.env_done ≡ true) ⊎ (t ≡ max_steps)
      → Extends max_steps t r w.env w.reward_sum w.step_idx w.env_done r w
  unfolding run
  Extends-stop max_steps t r w short over = record {
    actions = [];
    sampled = sym (append-nil r.sampled);
    rewards = sym (append-nil r.rewards);
    played = refl;
    outs = omega arith;
    beginning = refl;
    steps = omega arith;
    summed = refl;
    within = omega arith;
    ended = elim over [ inl done ↦ inl done | inr full ↦ inr (omega (arith, full)) ];
    last = refl;
  }

  rollout_loop-next :
      (max_steps fuel t : ℕ) (r : Rollout F P) (w w2 : Worker F S L P G) (out : Blocks (Res F P))
      (reward : F) (action : List F)
      → (ltb t max_steps || (max_steps == 0)) ≡ true
      → (step_agent api w).agent_res ≡ some out
      → step_env env api (step_agent api w) ≡ some ((reward, action, none), w2)
      → w2.env_done ≡ false
      → rollout_loop env api (suc fuel) max_steps t r w
        ≡ rollout_loop env api fuel max_steps (t + 1) (add_frame r out reward action) w2
  unfolding rollout_loop
  rollout_loop-next max_steps fuel t r w w2 out reward action goes has eq goes_on =
      rw (goes, has, eq, rollout_loop) (open_end w2.env_done _ _ goes_on)
    where
      open_end : (b : Bool) (x y : Option (Rolled F S L P G)) → b ≡ false → (if b then x else y) ≡ y
      open_end b x y e = rw e refl

  rollout_loop-Ends :
      (max_steps fuel t : ℕ) (r : Rollout F P) (w : Worker F S L P G)
      → 0 < max_steps
      → t ≤ max_steps
      → max_steps < t + fuel
      → Ends max_steps t r w.env w.reward_sum w.step_idx w.env_done
          (rollout_loop env api fuel max_steps t r w)
  unfolding rollout_loop
  rollout_loop-Ends max_steps zero t r w pos short enough = absurd (omega arith)
  rollout_loop-Ends max_steps (suc fuel) t r w pos short enough =
      elim (Bool-cases (ltb t max_steps)) [
        | inr full ↦ inr (
          r,
          w,
          rw (more_steps t max_steps pos full, rollout_loop) refl,
          Extends-stop max_steps t r w short (inr (ground (arith, full))),
        )
        | inl going ↦
            let w1 = step_agent api w in
            let stepped = step_agent-Stepped w in
            let res = stepped.res in
            let (action, rand) = api.sample w1.agent w1.rand res.actor.output in
            let (out, s) = env.step w1.env action in
            elim (Option-cases out.error) [
              | inr (e, bad) ↦
                  let (reward, action, w2, eq) = step_env-bad w1 res stepped.has e bad in
                  inl
                    (e, w2, rw (fewer_steps t max_steps going, stepped.has, eq, rollout_loop) refl)
              | inl good ↦
                  let w2 = moved w1 rand out s in
                  let r2 = add_frame r res out.rew action in
                  let eq = step_env-good w1 res stepped.has good in
                  let goes = fewer_steps t max_steps going in
                  let room : t + 1 ≤ max_steps = ground (arith, going) in
                  let joins : (r' : Rollout F P) (w' : Worker F S L P G)
                      → Extends max_steps (t + 1) r2 s w2.reward_sum w2.step_idx w2.env_done r' w'
                      → Extends max_steps t r w.env w.reward_sum w.step_idx w.env_done r' w' =
                    λ r' w' h. Extends-Stepped max_steps t r r' w w1 w' stepped (
                      Extends-cons max_steps t r r' w1.env w1.reward_sum w1.step_idx w1.env_done w'
                        res action h) in
                  elim (Bool-cases out.done) [
                    | inl over ↦ inr (
                      r2,
                      w2,
                      rw (goes, stepped.has, eq, over, rollout_loop) refl,
                      joins r2 w2 (Extends-stop max_steps (t + 1) r2 w2 room (inl over)),
                    )
                    | inr goes_on ↦
                        let next =
                          rollout_loop-next max_steps fuel t r w w2 res out.rew action goes
                            stepped.has eq goes_on in
                        elim (rollout_loop-Ends max_steps fuel (t + 1) r2 w2 pos room
                          (omega arith)) [
                            | inl (e, w', ends) ↦ inl (e, w', next ∙ ends)
                            | inr (r', w', ends, h) ↦ inr (r', w', next ∙ ends, joins r' w' h)
                          ]
                  ]
            ]
      ]

  -- With a limit on the steps `runRollout` ends, after at most that many rounds, and does not panic. It
  -- returns an error, or a rollout: its rewards are those that the environment gives, one after the other,
  -- for the actions that it lists, no more than the limit, and it has as many outputs of the agent; the last
  -- step was the end of the episode, or the limit is reached; the worker's `EnvDone`
  -- is that of the last step, or what it was if there was none; it counts as a beginning if the worker had not
  -- made a step; and the worker's count of steps and sum of rewards have grown by these rewards.
  pub run_rollout-Ends :
      (max_steps : ℕ) (w : Worker F S L P G)
      → 0 < max_steps
      → Ends max_steps 0
          (record { beginning = w.step_idx == 0; outs = []; rewards = []; sampled = [] })
          w.env
          w.reward_sum
          w.step_idx
          w.env_done
          (run_rollout env api (suc max_steps) max_steps w)
  unfolding run_rollout
  run_rollout-Ends max_steps w pos =
      rollout_loop-Ends max_steps (suc max_steps) 0 _ w pos (omega arith) (omega arith)
