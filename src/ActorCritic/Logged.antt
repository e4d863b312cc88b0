-- ===== src/ActorCritic/Logged.antt =====
-- The loop of `worker` (anya3c/a3c.go): its end, and what it logs.
use trpo.Prelude.{
  ℕ, ◌+◌, ◌≤◌, ◌≡◌, ◌⊎◌, List, ◌++◌, length, Bool, true, Option, none, some, if◌then◌else◌,
}
use trpo.Prelude.Float.{Float}
use trpo.Prelude.Failure.{Error}
use trpo.Env.{Env}
use trpo.Worker.{AgentApi, Worker, Rollout}
use trpo.ActorCritic.Rounds.{expected_logs, Played}
use trpo.ActorCritic.{A3c, ServerApi, Working, Turn, returns}

module _ {F S L P G R D : Type 0} ⦃fl : Float F⦄ (env : Env F S) (api : AgentApi F L P G)
    (server : ServerApi L R D) (learn : F → Rollout F P → Worker F S L P G → D × F) (id : ℕ)
    (conf : A3c F) where
  -- How the loop ends that began after `k` rounds in `s`.
  pub record Ended (k : ℕ) (stopped : ℕ → Bool) (s : Working F S L P G R) (n : ℕ)
      (out : Option (Turn (Working F S L P G R))) : Type 0 where
    pub problem : Option Error
    pub final : Working F S L P G R
    pub rounds : List (Rollout F P × Worker F S L P G)
    pub ends : out ≡ some (returns problem final)
    pub within : length rounds ≤ n
    pub why :
        ((problem ≡ none) × (stopped (k + length rounds) ≡ true))
        ⊎ ((e : Error) × (problem ≡ some e))
    pub played : Played env api server learn id conf s.worker.env s.worker.reward_sum rounds
    pub logged : final.logs ≡ (
        if conf.logging
        then s.logs
          ++ expected_logs env api server learn id conf s.worker.env s.worker.reward_sum rounds
        else s.logs)
