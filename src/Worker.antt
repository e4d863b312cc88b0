-- ===== src/Worker.antt =====
-- anya3c/worker.go, anya3c/rollout.go and anya3c/a3c.go: a worker of the asynchronous actor-critic, with its
-- environment, its local agent and the server of parameters. The blocks of the agent, the sampler with its
-- randomness, the gradient and the server's state are parameters.
pub mod Rolling
mod Tests
pub mod Advantages
pub mod Bptt
use trpo.Prelude.{
  ℕ, zero, suc, ◌+◌, List, [], ◌∷◌, ◌++◌, Bool, true, false, Option, none, some, length, get_elem?,
  set, replicate, ◌==◌, ltb, ◌||◌, if◌then◌else◌,
}
use trpo.Prelude.Float.{Float}
use trpo.Prelude.Failure.{Error, ctx}
use trpo.Env.{Env}

-- What is there once for each block: base, actor, critic.
pub record Blocks (A : Type 0) : Type 0 where
  pub base : A
  pub actor : A
  pub critic : A

-- `anyrnn.Res`
pub record Res (F P : Type 0) : Type 0 where
  pub output : List F
  pub state : P

-- The blocks and the sampler of a local agent `L`, over the states `P` of a block and the sources `G` of
-- randomness.
pub record AgentApi (F L P G : Type 0) : Type 0 where
  pub start : Blocks (L → P)
  pub step : Blocks (L → P → List F → Res F P)
  pub sample : L → G → List F → List F × G

pub record Worker (F S L P G : Type 0) : Type 0 where
  pub agent : L
  pub env : S
  pub rand : G
  pub env_obs : List F
  pub env_done : Bool
  pub step_idx : ℕ
  pub agent_res : Option (Blocks (Res F P))
  pub agent_state : Blocks P
  pub reward_sum : F

pub record Rollout (F P : Type 0) : Type 0 where
  pub beginning : Bool
  pub outs : List (Blocks (Res F P))
  pub rewards : List F
  pub sampled : List (List F)

-- How `runRollout` ends: with a panic, with an error, or with a rollout.
pub data Rolled (F S L P G : Type 0) : Type 0 where
  faults : Rolled F S L P G
  fails : Error → Worker F S L P G → Rolled F S L P G
  gives : Rollout F P → Worker F S L P G → Rolled F S L P G

module _ {F S L P G : Type 0} (api : AgentApi F L P G) where
  -- The results of the three blocks for the latest observation.
  unfoldable pub apply_blocks : Worker F S L P G → Blocks (Res F P)
  apply_blocks w =
      let base_out = api.step.base w.agent w.agent_state.base w.env_obs in
      record {
        base = base_out;
        actor = api.step.actor w.agent w.agent_state.actor base_out.output;
        critic = api.step.critic w.agent w.agent_state.critic base_out.output;
      }

  -- `StepAgent`
  unfoldable pub step_agent : Worker F S L P G → Worker F S L P G
  unfolding apply_blocks
  step_agent w = elim w.agent_res [
    | some res ↦ w
    | none ↦
        let res = apply_blocks w in
        record w {
          agent_res = some res;
          agent_state = record {
            base = res.base.state;
            actor = res.actor.state;
            critic = res.critic.state;
          };
        }
  ]

  -- `PeekCritic`
  unfoldable pub peek_critic : Worker F S L P G → List F
  peek_critic w =
      let base_out = api.step.base w.agent w.agent_state.base w.env_obs in
      (api.step.critic w.agent w.agent_state.critic base_out.output).output

-- `add` of a rollout
abbrev pub add_frame : {F P : Type 0} → Rollout F P → Blocks (Res F P) → F → List F → Rollout F P
add_frame r out reward action = record r {
  outs = r.outs ++ out ∷ [];
  rewards = r.rewards ++ reward ∷ [];
  sampled = r.sampled ++ action ∷ [];
}

module _ {F S L P G : Type 0} ⦃fl : Float F⦄ (env : Env F S) (api : AgentApi F L P G) where
  -- `Reset` of a worker: an error leaves all but the environment as it was.
  unfoldable pub reset_worker : Worker F S L P G → Option Error × Worker F S L P G
  reset_worker w =
      let (obs, problem, s) = env.reset w.env in
      elim problem [
        | some e ↦ (some e, record w { env = s })
        | none ↦ (
          none,
          record w {
            env = s;
            env_obs = obs;
            env_done = false;
            agent_state = record {
              base = api.start.base w.agent;
              actor = api.start.actor w.agent;
              critic = api.start.critic w.agent;
            };
            agent_res = none;
            reward_sum = fl.of_ℕ 0;
            step_idx = 0;
          },
        )
      ]

  -- `StepEnv`: the reward, the action and the error, or `none` for the panic if there is no result of the
  -- agent. On an error only `EnvDone` changes.
  unfoldable pub step_env :
      Worker F S L P G → Option ((F × List F × Option Error) × Worker F S L P G)
  step_env w = elim w.agent_res [
    | none ↦ none
    | some res ↦
        let (action, rand) = api.sample w.agent w.rand res.actor.output in
        let (out, s) = env.step w.env action in
        elim out.error [
          | some e ↦
              some
                ((out.rew, action, some e), record w { rand = rand; env = s; env_done = out.done })
          | none ↦ some (
            (out.rew, action, none),
            record w {
              rand = rand;
              env = s;
              env_done = out.done;
              env_obs = out.obs;
              reward_sum = fl.plus w.reward_sum out.rew;
              agent_res = none;
              step_idx = w.step_idx + 1;
            },
          )
        ]
  ]

  -- The loop of `runRollout` after `t` rounds; `none` means that the fuel ran out. The result of the agent
  -- is there after `StepAgent`.
  unfoldable pub rollout_loop :
      ℕ → ℕ → ℕ → Rollout F P → Worker F S L P G → Option (Rolled F S L P G)
  unfolding step_agent step_env
  rollout_loop zero max_steps t r w = none
  rollout_loop (suc fuel) max_steps t r w =
      if ltb t max_steps || (max_steps == 0)
      then (let w1 = step_agent api w in
          elim w1.agent_res [
            | none ↦ some faults
            | some last_out ↦ elim (step_env w1) [
              | none ↦ some faults
              | some ((reward, action, some e), w2) ↦ some (fails e w2)
              | some ((reward, action, none), w2) ↦
                  let r' = add_frame r last_out reward action in
                  let rest = rollout_loop fuel max_steps (t + 1) r' w2 in
                  if w2.env_done then some (gives r' w2) else rest
            ]
          ])
      else some (gives r w)

  -- `runRollout`
  unfoldable pub run_rollout : ℕ → ℕ → Worker F S L P G → Option (Rolled F S L P G)
  unfolding rollout_loop
  run_rollout fuel max_steps w =
      rollout_loop fuel max_steps 0
        (record { beginning = w.step_idx == 0; outs = []; rewards = []; sampled = [] }) w

module _ {F P : Type 0} ⦃fl : Float F⦄ (sum : List F → F) where
  -- The loop of `Advantages` from the round `t - 1` down; `none` is an index out of range.
  unfoldable pub advantages_loop : Rollout F P → F → ℕ → F → List F → Option (List F)
  advantages_loop r discount zero following advantages = some advantages
  advantages_loop r discount (suc t) following advantages = elim (get_elem? r.rewards t) [
    | none ↦ none
    | some reward ↦ elim (get_elem? r.outs t) [
      | none ↦ none
      | some out ↦
          let following' = fl.plus reward (fl.times discount following) in
          advantages_loop r discount t following'
            (set advantages t (fl.minus following' (sum out.critic.output)))
    ]
  ]

module _ {F S L P G : Type 0} ⦃fl : Float F⦄ (api : AgentApi F L P G) (sum : List F → F) where
  -- The value that `Advantages` starts from.
  unfoldable pub bootstrap : Worker F S L P G → F
  unfolding peek_critic
  bootstrap w = if w.env_done then fl.of_ℕ 0 else sum (peek_critic api w)

  -- `Advantages`
  unfoldable pub advantages : Rollout F P → Worker F S L P G → F → Option (List F)
  unfolding advantages_loop bootstrap
  advantages r w discount =
      advantages_loop sum r discount (length r.rewards) (bootstrap w)
        (replicate (length r.rewards) (fl.of_ℕ 0))
