-- ===== src/ActorCritic.antt =====
-- anya3c/a3c.go: the loop of a worker, and `Run`. The server of parameters, with its state `R`, and the
-- gradients `D` of `bptt` are parameters.

pub mod Rounds
pub mod Logged
pub mod Stopping
pub mod Crew
mod Tests
mod CrewTests
use trpo.Prelude.{
  ℕ, zero, suc, ◌+◌, List, [], ◌∷◌, ◌++◌, Bool, true, false, Option, none, some, if◌then◌else◌,
}
use trpo.Prelude.Float.{Float}
use trpo.Prelude.Failure.{Error, ctx, Result, panic, err, ok}
use trpo.Env.{Env}
use trpo.Worker.{Blocks, AgentApi, Worker, Rollout, faults, fails, gives, reset_worker, run_rollout}

-- The configuration; `logging` tells whether there is a `Logger`.
pub record A3c (F : Type 0) : Type 0 where
  pub discount : F
  pub max_steps : ℕ
  pub logging : Bool

-- `ParamServer`, whose `Sync` changes the local agent
pub record ServerApi (L R D : Type 0) : Type 0 where
  pub local_copy : R → Result L × R
  pub sync : R → L → Option Error × L × R
  pub update : R → D → L → Option Error × R

-- `LogEpisode` and `LogUpdate`
pub data Log (F : Type 0) : Type 0 where
  episode : ℕ → F → Log F
  updated : ℕ → F → Log F

pub record Working (F S L P G R : Type 0) : Type 0 where
  pub worker : Worker F S L P G
  pub server : R
  pub logs : List (Log F)

-- How a part of the loop ends.
pub data Turn (A : Type 0) : Type 0 where
  crashes : Turn A
  returns : Option Error → A → Turn A
  goes_on : A → Turn A

module _ {F S L P G R D : Type 0} ⦃fl : Float F⦄ (env : Env F S) (api : AgentApi F L P G)
    (server : ServerApi L R D) (learn : F → Rollout F P → Worker F S L P G → D × F) (id : ℕ)
    (conf : A3c F) where
  -- `if bptt.Discount == 0`
  abbrev pub discount_of : F
  discount_of = if fl.differs conf.discount (fl.of_ℕ 0) then conf.discount else fl.of_ℕ 1

  -- `update`; `none` means that the fuel of the rollout ran out.
  unfoldable pub update_worker : ℕ → Working F S L P G R → Option (Turn (Working F S L P G R))
  update_worker fuel s =
      let (problem, agent, server1) = server.sync s.server s.worker.agent in
      let synced : Worker F S L P G = record s.worker { agent = agent } in
      elim problem [
        | some e ↦ some (returns (some e) (record s { worker = synced; server = server1 }))
        | none ↦ elim (run_rollout env api fuel conf.max_steps synced) [
          | none ↦ none
          | some faults ↦ some crashes
          | some (fails e w) ↦ some (returns (some e) (record s { worker = w; server = server1 }))
          | some (gives r w) ↦
              let (grad, mse) = learn discount_of r w in
              let (problem, server2) = server.update server1 grad w.agent in
              elim problem [
                | some e ↦ some (returns (some e) (record s { worker = w; server = server2 }))
                | none ↦ some (
                    goes_on (record s {
                      worker = w;
                      server = server2;
                      logs = if conf.logging then s.logs ++ updated id mse ∷ [] else s.logs;
                    }))
              ]
        ]
      ]

  -- `if w.EnvDone` in the loop
  unfoldable pub end_episode : Working F S L P G R → Turn (Working F S L P G R)
  end_episode s =
      if s.worker.env_done
      then (let logs =
            if conf.logging then s.logs ++ episode id s.worker.reward_sum ∷ [] else s.logs in
          let (problem, w) = reset_worker env api s.worker in
          elim problem [
            | some e ↦ returns (some e) (record s { worker = w; logs = logs })
            | none ↦ goes_on (record s { worker = w; logs = logs })
          ])
      else goes_on s

  -- The loop of `worker` after `k` rounds; `stopped k` tells whether `stopChan` is closed then.
  unfoldable pub worker_loop :
      ℕ → ℕ → (ℕ → Bool) → ℕ → Working F S L P G R → Option (Turn (Working F S L P G R))
  unfolding update_worker end_episode
  worker_loop zero rollout_fuel stopped k s = none
  worker_loop (suc fuel) rollout_fuel stopped k s =
      if stopped k then some (returns none s) else elim (update_worker rollout_fuel s) [
        | none ↦ none
        | some crashes ↦ some crashes
        | some (returns problem t) ↦ some (returns problem t)
        | some (goes_on t) ↦ elim (end_episode t) [
          | crashes ↦ some crashes
          | returns problem t' ↦ some (returns problem t')
          | goes_on t' ↦ worker_loop fuel rollout_fuel stopped (k + 1) t'
        ]
      ]

  -- `worker` with a local agent, which `newWorker` has made from `blank`
  unfoldable pub run_worker :
      ℕ → ℕ → (ℕ → Bool) → (L → Worker F S L P G) → R → Option (Turn (Option (Working F S L P G R)))
  unfolding worker_loop
  run_worker fuel rollout_fuel stopped new_worker r =
      let (copied, r') = server.local_copy r in
      elim copied [
        | panic ↦ some crashes
        | err e ↦ some (returns (some e) none)
        | ok agent ↦
            let (problem, w) = reset_worker env api (new_worker agent) in
            let s : Working F S L P G R = record { worker = w; server = r'; logs = [] } in
            elim problem [
              | some e ↦ some (returns (some e) (some s))
              | none ↦ elim (worker_loop fuel rollout_fuel stopped 0 s) [
                | none ↦ none
                | some crashes ↦ some crashes
                | some (returns problem t) ↦ some (returns problem (some t))
                | some (goes_on t) ↦ some (goes_on (some t))
              ]
            ]
      ]

-- What the `select` of `Run` can see: a worker that returns, or the end of `done`.
pub data Signal : Type 0 where
  worker_returned : Option Error → Signal
  done_closed : Signal

-- `Run` until it closes `stopChan`: the signals come in some order; `none` while it waits.
unfoldable pub run_a3c : List Signal → Option (Option Error)
run_a3c [] = none
run_a3c (worker_returned none ∷ signals) = run_a3c signals
run_a3c (worker_returned (some e) ∷ signals) = some (some (ctx "run A3C" e))
run_a3c (done_closed ∷ signals) = some none
