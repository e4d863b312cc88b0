-- ===== src/Wrappers/Tests.antt =====
-- The wrappers on a small environment: episodes of two steps, each with the reward 5.
use trpo.Prelude.{ℕ, ◌+◌, ◌-◌, ◌≡◌, refl, List, [], ◌∷◌, map, false, none, arith, ◌==◌}
use trpo.Prelude.Int.{ℤ, pos, int_float}
use trpo.Env.{Env, run}
use trpo.Wrappers.{MaxStepsEnv, MetaEnv, max_steps_reset, max_steps_step, meta_reset, meta_step}
use trpo.Wrappers.MaxSteps.{cut_at, max_steps_episode, max_steps_unlimited}
use trpo.Wrappers.Meta.{count_done, any_done, visible, endless, HasSize, meta_episode}

-- The state counts the steps that remain.
abbrev two_steps : Env ℤ ℕ
two_steps = record {
  reset = λ _. (pos 2 ∷ [], none, 2);
  step =
      λ s act. (record { obs = pos (s - 1) ∷ []; rew = pos 5; done = s == 1; error = none }, s - 1);
}

abbrev limited : ℕ → MaxStepsEnv ℕ
limited n = record { inner = 0; max_steps = n; steps = 7 }

abbrev meta : MetaEnv ℕ
meta = record { inner = 0; num_runs = 3; action_size = 1; reward_all = false; runs_remaining = 0 }

abbrev acts : ℕ → List (List ℤ)
acts = elim [ Prim.Native.Nat.zero ↦ [] | Prim.Native.Nat.suc (n → more) ↦ (pos 9 ∷ []) ∷ more ]

-- A limit that the count has passed is not applied.
limit_passed :
    map (λ o. o.done) (run (max_steps_step two_steps) (limited 1) (acts 2)).0 ≡ false ∷ false ∷ []
unfolding run max_steps_step
limit_passed = refl

-- Rewards of three sub-episodes: the last step of the second one is not hidden.
penultimate_reward :
    map (λ o. o.rew) (run (meta_step two_steps) (meta_reset two_steps meta).2 (acts 6)).0
    ≡ pos 0 ∷ pos 0 ∷ pos 0 ∷ pos 5 ∷ pos 5 ∷ pos 5 ∷ []
unfolding run meta_step meta_reset
penultimate_reward = refl

max_steps_episode_example :
    (run (max_steps_step two_steps) (max_steps_reset two_steps (limited 1)).2 (acts 3)).0
    ≡ cut_at 1 0 (run two_steps.step 2 (acts 3)).0
max_steps_episode_example = max_steps_episode two_steps (limited 1) (acts 3)

max_steps_unlimited_example :
    (run (max_steps_step two_steps) (max_steps_reset two_steps (limited 0)).2 (acts 3)).0
    ≡ (run two_steps.step 2 (acts 3)).0
max_steps_unlimited_example = max_steps_unlimited two_steps (limited 0) (acts 3) refl

meta_episode_example :
    let (outs, end) = run (meta_step two_steps) (meta_reset two_steps meta).2 (acts 6) in
    let plain = (run (endless two_steps) 2 (acts 6)).0 in
    (end.runs_remaining + count_done plain ≡ 3)
    × (any_done outs ≡ (end.runs_remaining == 0))
    × (map (λ o. o.rew) outs ≡ visible two_steps false 3 plain)
unfolding run meta_step meta_reset
meta_episode_example =
    meta_episode two_steps meta (acts 6) (omega arith)
      (refl, (refl, (refl, (refl, (refl, (refl, tt))))))

two_steps-HasSize : HasSize two_steps 1
two_steps-HasSize = record { of_reset = λ s _. refl; of_step = λ s act _. refl }

abbrev running : MetaEnv ℕ
running = record meta { inner = 1; runs_remaining = 2 }
