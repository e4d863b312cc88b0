-- ===== src/Worker/Tests.antt =====
-- A worker on an environment of three steps, whose agent acts with its one parameter and whose critic
-- returns the observation.
use trpo.Prelude.{
  ℕ, ◌+◌, ◌-◌, ◌≡◌, refl, List, [], ◌∷◌, true, false, none, some, ◌==◌, arith, head_or,
}
use trpo.Prelude.Int.{ℤ, pos, int_float}
use trpo.Env.{Env}
use trpo.Worker.{
  Blocks, Res, AgentApi, Worker, Rollout, gives, run_rollout, rollout_loop, step_agent, step_env,
  apply_blocks, peek_critic, advantages, bootstrap, advantages_loop,
}
use trpo.Worker.Rolling.{Ends, run_rollout-Ends}
use trpo.Worker.Advantages.{advantage_specs, advantages-specs}

abbrev three_steps : Env ℤ ℕ
three_steps = record {
  reset = λ _. (pos 3 ∷ [], none, 3);
  step = λ s act. (
    record { obs = pos (s - 1) ∷ []; rew = head_or (pos 0) act; done = s == 1; error = none },
    s - 1,
  );
}

abbrev same_in : ℤ → ℕ → List ℤ → Res ℤ ℕ
same_in l p obs = record { output = obs; state = p + 1 }

abbrev agent_api : AgentApi ℤ ℤ ℕ ℕ
agent_api = record {
  start = record { base = λ l. 0; actor = λ l. 0; critic = λ l. 0 };
  step = record {
    base = same_in;
    actor = λ l p obs. record { output = l ∷ []; state = p + 1 };
    critic = same_in;
  };
  sample = λ l g params. (params, g + 1);
}

abbrev new_worker : ℤ → Worker ℤ ℕ ℤ ℕ ℕ
new_worker l = record {
  agent = l;
  env = 3;
  rand = 0;
  env_obs = pos 3 ∷ [];
  env_done = false;
  step_idx = 0;
  agent_res = none;
  agent_state = record { base = 0; actor = 0; critic = 0 };
  reward_sum = pos 0;
}

abbrev no_frames : Rollout ℤ ℕ
no_frames = record { beginning = true; outs = []; rewards = []; sampled = [] }

abbrev out_at : ℕ → Blocks (Res ℤ ℕ)
out_at p = record {
  base = record { output = pos (3 - p) ∷ []; state = p + 1 };
  actor = record { output = pos 4 ∷ []; state = p + 1 };
  critic = record { output = pos (3 - p) ∷ []; state = p + 1 };
}

abbrev two_frames : Rollout ℤ ℕ
two_frames = record {
  beginning = true;
  outs = out_at 0 ∷ out_at 1 ∷ [];
  rewards = pos 4 ∷ pos 4 ∷ [];
  sampled = (pos 4 ∷ []) ∷ (pos 4 ∷ []) ∷ [];
}

abbrev after_two : Worker ℤ ℕ ℤ ℕ ℕ
after_two = record (new_worker (pos 4)) {
  env = 1;
  rand = 2;
  env_obs = pos 1 ∷ [];
  step_idx = 2;
  agent_state = record { base = 2; actor = 2; critic = 2 };
  reward_sum = pos 8;
}

rollout_test :
    run_rollout three_steps agent_api 3 2 (new_worker (pos 4)) ≡ some (gives two_frames after_two)
unfolding run_rollout rollout_loop step_agent step_env apply_blocks
rollout_test = refl

run_rollout-Ends_example :
    Ends three_steps agent_api 2 0 no_frames 3
      (pos 0)
      0
      false
      (run_rollout three_steps agent_api 3 2 (new_worker (pos 4)))
run_rollout-Ends_example =
    run_rollout-Ends three_steps agent_api 2 (new_worker (pos 4)) (omega arith)

abbrev sum_of : List ℤ → ℤ
sum_of xs = head_or (pos 0) xs

-- The episode goes on, so the critic's value of the next observation stands for the rest.
advantages_test :
    advantages agent_api sum_of two_frames after_two (pos 1) ≡ some (pos 6 ∷ pos 3 ∷ [])
unfolding advantages advantages_loop bootstrap peek_critic
advantages_test = refl

advantages-specs_example :
    advantages agent_api sum_of two_frames after_two (pos 1)
    ≡ some (
        advantage_specs sum_of
          (pos 1)
          (bootstrap agent_api sum_of after_two)
          two_frames.rewards
          two_frames.outs)
advantages-specs_example = advantages-specs agent_api sum_of two_frames after_two (pos 1) refl
