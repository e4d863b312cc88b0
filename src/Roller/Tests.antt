-- ===== src/Roller/Tests.antt =====
-- A rollout of environments of one and of three steps, which pay what the agent does; the agent acts with
-- the number of environments in the batch.
use trpo.Prelude.{
  ℕ, ◌+◌, ◌-◌, ◌<◌, ◌≡◌, refl, List, [], ◌∷◌, Bool, true, false, none, some, ltb, arith, head_or,
  replicate,
}
use trpo.Prelude.Int.{ℤ, pos, int_float}
use trpo.Prelude.Failure.{ok}
use trpo.Env.{Env}
use trpo.Rewards.{Batch, distribute}
use trpo.Roller.{
  num_present, BlockApi, Tapes, no_tapes, rollout_chans, rollout_loop, rollout_reset, rollout_step,
  batch_step, join_observations,
}
use trpo.Roller.Rolling.{Ends, rollout_chans-Ends}

abbrev steps_left : Env ℤ ℕ
steps_left = record {
  reset = λ s. (pos s ∷ [], none, s);
  step = λ s act. (
    record { obs = pos (s - 1) ∷ []; rew = head_or (pos 0) act; done = ltb s 2; error = none },
    s - 1,
  );
}

abbrev sizes : BlockApi ℤ ℕ ℕ
sizes = record {
  start = λ n. n;
  present = λ n. replicate n true;
  reduce = λ ps n. num_present ps;
  step = λ n packed. (packed, n);
  sample = λ g out n. (replicate n (pos (10 + n)), g);
}

abbrev both : List Bool
both = true ∷ true ∷ []

abbrev second : List Bool
second = false ∷ true ∷ []

abbrev batch : List ℤ → List Bool → Batch ℤ
batch packed present = record { packed = packed; present = present }

abbrev tapes : Tapes ℤ
tapes = record {
  inputs =
      batch (pos 1 ∷ pos 3 ∷ []) both ∷ batch (pos 2 ∷ []) second ∷ batch (pos 1 ∷ []) second ∷ [];
  actions =
      batch (pos 12 ∷ pos 12 ∷ []) both
      ∷ batch (pos 11 ∷ []) second
      ∷ batch (pos 11 ∷ []) second
      ∷ [];
  agent_outs =
      batch (pos 1 ∷ pos 3 ∷ []) both ∷ batch (pos 2 ∷ []) second ∷ batch (pos 1 ∷ []) second ∷ [];
}

abbrev rewards_of : List (List ℤ)
rewards_of = (pos 12 ∷ []) ∷ (pos 12 ∷ pos 11 ∷ pos 11 ∷ []) ∷ []

rollout_test :
    rollout_chans steps_left sizes 4 0 (1 ∷ 3 ∷ []) ≡ some (ok ((rewards_of, tapes), 0 ∷ 0 ∷ []))
unfolding rollout_chans rollout_loop rollout_reset rollout_step batch_step join_observations
    distribute
rollout_test = refl

no_environments_test : rollout_chans steps_left sizes 4 0 [] ≡ some (ok (([], no_tapes), []))
unfolding rollout_chans
no_environments_test = refl

fewer : (s : ℕ) (a : List ℤ) → (steps_left.step s a).0.done ≡ false → s - 1 < s
fewer s a going = ground (arith, going)

rollout_chans-Ends_example :
    Ends steps_left sizes (1 ∷ 3 ∷ []) (rollout_chans steps_left sizes 5 0 (1 ∷ 3 ∷ []))
rollout_chans-Ends_example =
    rollout_chans-Ends steps_left sizes (λ s. s) fewer 4 0 (1 ∷ 3 ∷ [])
      (omega arith, (omega arith, tt))
