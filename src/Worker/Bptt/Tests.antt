-- ===== src/Worker/Bptt/Tests.antt =====
-- Back-propagation through two steps; the gradient is a record of what the results were given.
use trpo.Prelude.{ℕ, ◌+◌, ◌≡◌, refl, List, [], ◌∷◌, ◌++◌, true, none, some, head_or}
use trpo.Prelude.Int.{ℤ, pos, int_float}
use trpo.Prelude.Failure.{ok}
use trpo.Worker.{Blocks, Res, AgentApi, Worker, Rollout, bootstrap}
use trpo.Worker.Advantages.{advantage_specs}
use trpo.Worker.Bptt.{BpttApi, Back, run_bptt}
use trpo.Worker.Bptt.Chain.{Fits, Chain, run_bptt-Chain}

abbrev out_of : ℕ → ℤ → Res ℤ ℕ
out_of p x = record { output = x ∷ []; state = p }

abbrev outs_at : ℕ → Blocks (Res ℤ ℕ)
outs_at t = record { base = out_of t (pos 1); actor = out_of t (pos 2); critic = out_of t (pos 3) }

abbrev frames : Rollout ℤ ℕ
frames = record {
  beginning = true;
  outs = outs_at 0 ∷ outs_at 1 ∷ [];
  rewards = pos 4 ∷ pos 5 ∷ [];
  sampled = (pos 7 ∷ []) ∷ (pos 8 ∷ []) ∷ [];
}

abbrev agent_api : AgentApi ℤ ℤ ℕ ℕ
agent_api = record {
  start = record { base = λ l. 0; actor = λ l. 0; critic = λ l. 0 };
  step = record {
    base = λ l p obs. record { output = obs; state = p };
    actor = λ l p obs. record { output = obs; state = p };
    critic = λ l p obs. record { output = obs; state = p };
  };
  sample = λ l g params. (params, g);
}

abbrev at_end : Worker ℤ ℕ ℤ ℕ ℕ
at_end = record {
  agent = pos 1;
  env = 0;
  rand = 0;
  env_obs = [];
  env_done = true;
  step_idx = 2;
  agent_res = none;
  agent_state = record { base = 2; actor = 2; critic = 2 };
  reward_sum = pos 9;
}

-- Which block and step was given what, with the state gradient.
abbrev Given : Type 0
Given = ℕ × ℕ × ℤ × ℕ

abbrev block : ℕ → Res ℤ ℕ → List ℤ → ℕ → List Given → List ℤ × ℕ × List Given
block k r up u g = (head_or (pos 0) up ∷ [], u + 1, g ++ (k, r.state, head_or (pos 0) up, u) ∷ [])

abbrev records : BpttApi ℤ ℤ ℕ ℕ (List Given)
records = record {
  has_params = λ l. true;
  new_grad = λ l. [];
  no_state = 0;
  propagate = record { base = block 0; actor = block 1; critic = block 2 };
  propagate_start = record {
    base = λ l u g. g ++ (0, 9, pos 0, u) ∷ [];
    actor = λ l u g. g ++ (1, 9, pos 0, u) ∷ [];
    critic = λ l u g. g ++ (2, 9, pos 0, u) ∷ [];
  };
  log_prob_grad = λ l params action advantage. advantage ∷ [];
  regularizer = some (λ params. (pos 1 ∷ [], pos 6 ∷ []));
}

abbrev sum_of : List ℤ → ℤ
sum_of xs = head_or (pos 0) xs

-- The advantages are 6 and 2; the mean of their squares is 20.
bptt_test :
    run_bptt agent_api sum_of records true frames at_end (pos 1)
    ≡ ok (
      (1, 1, pos 3, 0)
          ∷ (2, 1, pos 4, 0)
          ∷ (0, 1, pos 7, 0)
          ∷ (1, 0, pos 7, 1)
          ∷ (2, 0, pos 12, 1)
          ∷ (0, 0, pos 19, 1)
          ∷ (0, 9, pos 0, 2)
          ∷ (1, 9, pos 0, 2)
          ∷ (2, 9, pos 0, 2)
          ∷ [],
      pos 20,
      pos 6 ∷ pos 6 ∷ [],
    )
unfolding run_bptt trpo.Worker.advantages trpo.Worker.advantages_loop bootstrap
bptt_test = refl

-- Each block passes one component down.
fit : (t : ℕ) → Fits sum_of records true (pos 1) (outs_at t)
fit t = record { penalty = λ sampled adv. refl; down = λ up up' u u' d d'. refl }

run_bptt-Chain_example :
    (s : Back ℤ ℕ (List Given)) × Chain sum_of records true
      (pos 1)
      frames.outs
      frames.sampled
      (advantage_specs sum_of
        (pos 1)
        (bootstrap agent_api sum_of at_end)
        frames.rewards
        frames.outs)
      s
    × (run_bptt agent_api sum_of records true frames at_end (pos 1)
        ≡ ok (
          records.propagate_start.critic (pos 1) s.upstream.critic (
              records.propagate_start.actor
                (pos 1)
                s.upstream.actor
                (records.propagate_start.base (pos 1) s.upstream.base s.grad)),
          int_float.over s.mse (pos 2),
          s.logs,
        ))
run_bptt-Chain_example =
    run_bptt-Chain agent_api sum_of records true frames at_end (pos 1) refl refl refl
      (fit 0, (fit 1, tt))
