-- ===== src/Worker/Bptt.antt =====
-- anya3c/bptt.go: back-propagation through the steps of a rollout. How a result passes a gradient on, and the
-- gradients of the action space and of the regularizer, are parameters; `D` is a gradient, which they add to.
pub mod Backward
pub mod Chain
mod Tests
use trpo.Prelude.{
  ℕ, zero, suc, List, [], ◌∷◌, ◌++◌, Bool, Option, none, some, length, get_elem?, if◌then◌else◌,
}
use trpo.Prelude.Float.{Float}
use trpo.Prelude.Failure.{Result, ok, panic, ◌>>=◌}
use trpo.ActionSpace.Densities.{add}
use trpo.Worker.{Blocks, Res, AgentApi, Worker, Rollout, advantages}

-- `U` is `anyrnn.StateGrad`, with its `nil`.
pub record BpttApi (F L P U D : Type 0) : Type 0 where
  -- `len(Params) != 0` and `NewGrad(Params...)`
  pub has_params : L → Bool
  pub new_grad : L → D
  pub no_state : U
  -- `Propagate` of `anyrnn.Res`
  pub propagate : Blocks (Res F P → List F → U → D → List F × U × D)
  pub propagate_start : Blocks (L → U → D → D)
  -- The gradient of the log-probability of an action, times a number
  pub log_prob_grad : L → List F → List F → F → List F
  -- The gradient of the penalty, and the penalty
  pub regularizer : Option (List F → List F × List F)

-- The variables of `Run`, with what is given to `LogRegularize`.
pub record Back (F U D : Type 0) : Type 0 where
  pub grad : D
  pub upstream : Blocks U
  pub mse : F
  pub logs : List F

module _ {F L P U D : Type 0} ⦃fl : Float F⦄ (sum : List F → F) (b : BpttApi F L P U D)
    (logging : Bool) where
  -- `actorUpstream`, with what it logs
  unfoldable pub actor_upstream : L → List F → List F → F → Result (List F × List F)
  actor_upstream agent params sampled advantage =
      let grad = b.log_prob_grad agent params sampled advantage in
      elim b.regularizer [
        | none ↦ ok (grad, [])
        | some regularize ↦
            let (penalty_grad, penalty) = regularize params in
            add grad penalty_grad >>= λ total. ok (total, if logging then sum penalty ∷ [] else [])
      ]

  -- One round of the loop of `Run`.
  unfoldable pub back_step : L → Blocks (Res F P) → List F → F → Back F U D → Result (Back F U D)
  unfolding actor_upstream
  back_step agent out sampled advantage s =
      actor_upstream agent out.actor.output sampled advantage >>= λ (actor_up, logs).
      let critic_up = fl.times advantage (fl.of_ℕ 2) ∷ [] in
      let (base_up1, actor_state, grad1) =
        b.propagate.actor out.actor actor_up s.upstream.actor s.grad in
      let (base_up2, critic_state, grad2) =
        b.propagate.critic out.critic critic_up s.upstream.critic grad1 in
      add base_up1 base_up2 >>= λ base_up.
      let (_, base_state, grad3) = b.propagate.base out.base base_up s.upstream.base grad2 in
      ok (record {
        grad = grad3;
        upstream = record { base = base_state; actor = actor_state; critic = critic_state };
        mse = fl.plus s.mse (fl.times advantage advantage);
        logs = s.logs ++ logs;
      })

  -- The loop from the round `t - 1` down
  unfoldable pub back_loop : L → Rollout F P → List F → ℕ → Back F U D → Result (Back F U D)
  unfolding back_step
  back_loop agent r advs zero s = ok s
  back_loop agent r advs (suc t) s = elim (get_elem? r.outs t) [
    | none ↦ panic
    | some out ↦ elim (get_elem? advs t) [
      | none ↦ panic
      | some advantage ↦ elim (get_elem? r.sampled t) [
        | none ↦ panic
        | some sampled ↦ back_step agent out sampled advantage s >>= back_loop agent r advs t
      ]
    ]
  ]

  abbrev pub start_back : L → Back F U D
  start_back agent = record {
    grad = b.new_grad agent;
    upstream = record { base = b.no_state; actor = b.no_state; critic = b.no_state };
    mse = fl.of_ℕ 0;
    logs = [];
  }

  -- The end of `Run`: the states at the start of an episode, and the mean of `n` squares.
  unfoldable pub finish_back : L → Bool → ℕ → Back F U D → D × F × List F
  finish_back agent beginning n s =
      let start = b.propagate_start in
      let grad1 = start.base agent s.upstream.base s.grad in
      let grad2 = start.actor agent s.upstream.actor grad1 in
      let grad3 = start.critic agent s.upstream.critic grad2 in
      (if beginning then grad3 else s.grad, fl.over s.mse (fl.of_ℕ n), s.logs)

module _ {F S L P G U D : Type 0} ⦃fl : Float F⦄ (api : AgentApi F L P G) (sum : List F → F)
    (b : BpttApi F L P U D) (logging : Bool) where
  -- `Run`: the gradient, the mean squared error of the critic, and what is logged
  unfoldable pub run_bptt : Rollout F P → Worker F S L P G → F → Result (D × F × List F)
  unfolding back_loop finish_back
  run_bptt r w discount =
      if b.has_params w.agent
      then elim (advantages api sum r w discount) [
        | none ↦ panic
        | some advs ↦
            back_loop sum b logging w.agent r advs (length advs) (start_back sum b logging w.agent)
            >>= λ s. ok (finish_back sum b logging w.agent r.beginning (length advs) s)
      ]
      else ok (b.new_grad w.agent, fl.of_ℕ 0, [])
