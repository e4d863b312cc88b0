-- ===== src/ActorCritic/Stopping.antt =====
-- A worker of anya3c/a3c.go returns without an error only when it finds `stopChan` closed.
use trpo.Prelude.{ℕ, zero, suc, ◌+◌, ◌≡◌, Bool, false, none, some, arith}
use trpo.Prelude.Float.{Float}
use trpo.Env.{Env}
use trpo.Worker.{AgentApi, Worker, Rollout}
use trpo.ActorCritic.{A3c, ServerApi, Working, returns, update_worker, end_episode, worker_loop}

module _ {F S L P G R D : Type 0} ⦃fl : Float F⦄ (env : Env F S) (api : AgentApi F L P G)
    (server : ServerApi L R D) (learn : F → Rollout F P → Worker F S L P G → D × F) (id : ℕ)
    (conf : A3c F) where
  update_not_quiet :
      (fuel : ℕ) (s t : Working F S L P G R)
      → update_worker env api server learn id conf fuel s ≡ some (returns none t)
      → ⊥
  unfolding update_worker
  update_not_quiet fuel s t q = ground arith

  end_not_quiet :
      (s t : Working F S L P G R) → end_episode env api server learn id conf s ≡ returns none t → ⊥
  unfolding end_episode
  end_not_quiet s t q = ground arith

  -- Unless `stopChan` is closed at some round, the loop of a worker does not end without an error.
  pub worker_loop_stopped :
      (fuel rollout_fuel : ℕ) (stopped : ℕ → Bool) (k : ℕ) (s t : Working F S L P G R)
      → ((j : ℕ) → stopped j ≡ false)
      → worker_loop env api server learn id conf fuel rollout_fuel stopped k s
        ≡ some (returns none t)
      → ⊥
  unfolding worker_loop
  worker_loop_stopped zero rollout_fuel stopped k s t h q = cc
  worker_loop_stopped (suc fuel) rollout_fuel stopped k s t h q =
      let rec =
        λ (u : Working F S L P G R). worker_loop_stopped fuel rollout_fuel stopped (k + 1) u t h in
      grind (
        arith,
        h k,
        rec,
        update_not_quiet rollout_fuel s,
        λ (u v : Working F S L P G R). end_not_quiet u v,
      )
