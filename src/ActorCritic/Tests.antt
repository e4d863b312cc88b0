-- ===== src/ActorCritic/Tests.antt =====
-- A worker's loop on an environment of two steps that pays what the agent does, with a server that counts
-- its updates.
use trpo.Prelude.{
  ℕ, Bool, ◌+◌, ◌-◌, ◌≡◌, refl, List, [], ◌∷◌, true, false, none, some, ◌==◌, ltb, head_or,
}
use trpo.Prelude.Int.{ℤ, pos, int_float}
use trpo.Prelude.Failure.{ok, ctx, text}
use trpo.Env.{Env}
use trpo.Worker.{
  AgentApi, Worker, Rollout, run_rollout, rollout_loop, step_agent, step_env, reset_worker,
  apply_blocks,
}
use trpo.ActorCritic.{
  A3c, ServerApi, Log, episode, updated, Working, returns, worker_loop, update_worker, end_episode,
  worker_returned, done_closed, run_a3c,
}

abbrev two_steps : Env ℤ ℕ
two_steps = record {
  reset = λ _. (pos 2 ∷ [], none, 2);
  step = λ s act. (
    record { obs = pos (s - 1) ∷ []; rew = head_or (pos 0) act; done = s == 1; error = none },
    s - 1,
  );
}

-- Acts with its parameter.
abbrev acts : AgentApi ℤ ℤ ℕ ℕ
acts = record {
  start = record { base = λ l. 0; actor = λ l. 0; critic = λ l. 0 };
  step = record {
    base = λ l p obs. record { output = obs; state = p };
    actor = λ l p obs. record { output = l ∷ []; state = p };
    critic = λ l p obs. record { output = obs; state = p };
  };
  sample = λ l g params. (params, g);
}

-- The local agent is the number of updates.
abbrev counter : ServerApi ℤ ℕ ℤ
counter = record {
  local_copy = λ r. (ok (pos r), r);
  sync = λ r l. (none, pos r, r);
  update = λ r grad l. (none, r + 1);
}

abbrev learn : ℤ → Rollout ℤ ℕ → Worker ℤ ℕ ℤ ℕ ℕ → ℤ × ℤ
learn discount r w = (pos 0, discount)

abbrev blank : ℤ → Worker ℤ ℕ ℤ ℕ ℕ
blank l = record {
  agent = l;
  env = 0;
  rand = 0;
  env_obs = [];
  env_done = false;
  step_idx = 0;
  agent_res = none;
  agent_state = record { base = 0; actor = 0; critic = 0 };
  reward_sum = pos 0;
}

abbrev conf : A3c ℤ
conf = record { discount = pos 0; max_steps = 1; logging = true }

abbrev fresh : Working ℤ ℕ ℤ ℕ ℕ ℕ
fresh = record {
  worker = record (blank (pos 0)) { env = 2; env_obs = pos 2 ∷ [] };
  server = 5;
  logs = [];
}

abbrev stops_after : ℕ → ℕ → Bool
stops_after n k = ltb n k

abbrev logged : Working ℤ ℕ ℤ ℕ ℕ ℕ → List (Log ℤ)
logged s = s.logs

abbrev last : Working ℤ ℕ ℤ ℕ ℕ ℕ
last = record {
  worker = record (blank (pos 7)) {
    env = 1;
    env_obs = pos 1 ∷ [];
    step_idx = 1;
    reward_sum = pos 7;
  };
  server = 8;
  logs = updated 3 (pos 1) ∷ updated 3 (pos 1) ∷ episode 3 (pos 11) ∷ updated 3 (pos 1) ∷ [];
}

loop_test :
    worker_loop two_steps acts counter learn 3 conf 4 2 (stops_after 2) 0 fresh
    ≡ some (returns none last)
unfolding worker_loop update_worker end_episode run_rollout rollout_loop step_agent step_env
    reset_worker apply_blocks
loop_test = refl

-- The first error counts, and none after the end of `done`.
run_test :
    run_a3c (worker_returned none ∷ worker_returned (some (text "a")) ∷ done_closed ∷ [])
    ≡ some (some (ctx "run A3C" (text "a")))
unfolding run_a3c
run_test = refl
