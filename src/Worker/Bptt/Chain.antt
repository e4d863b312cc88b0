-- ===== src/Worker/Bptt/Chain.antt =====
-- `Run` of anya3c/bptt.go, described by what each step of a rollout is given and passes on.
use trpo.Prelude.{
  ◌≡◌, inl, inr, refl, sym, ◌∙◌, List, [], ◌∷◌, ◌++◌, Bool, true, Option, none, some, length,
  if◌then◌else◌, All, Option-cases, arith,
}
use trpo.Prelude.Float.{Float}
use trpo.Prelude.Failure.{ok}
use trpo.ActionSpace.Densities.{zip_with}
use trpo.ActionSpace.Zeros.{entrywise_ok}
use trpo.Worker.{Blocks, Res, AgentApi, Worker, Rollout, bootstrap}
use trpo.Worker.Advantages.{advantage_specs}
use trpo.Worker.Bptt.{BpttApi, Back, actor_upstream, back_step, start_back, finish_back, run_bptt}
use trpo.Worker.Bptt.Backward.{through_time, length-specs, run_bptt-through_time}

module _ {F L P U D : Type 0} ⦃fl : Float F⦄ (sum : List F → F) (b : BpttApi F L P U D)
    (logging : Bool) (agent : L) where
  -- The gradient of the log-probability of the action, with that of the penalty if there is a regularizer.
  abbrev pub actor_given : List F → List F → F → List F
  actor_given params sampled adv =
      let grad = b.log_prob_grad agent params sampled adv in
      elim b.regularizer [
        | none ↦ grad
        | some regularize ↦ zip_with fl.plus grad (regularize params).0
      ]

  abbrev pub penalty_logged : List F → List F
  penalty_logged params = elim b.regularizer [
    | none ↦ []
    | some regularize ↦ if logging then sum (regularize params).1 ∷ [] else []
  ]

  -- What a step makes of the variables `later` that the step after it leaves.
  pub record Passes (out : Blocks (Res F P)) (sampled : List F) (adv : F) (later now : Back F U D)
      : Type 0 where
    pub actor_down : List F
    pub critic_down : List F
    pub base_down : List F
    pub grad1 : D
    pub grad2 : D
    pub actor_passes :
        b.propagate.actor out.actor
          (actor_given out.actor.output sampled adv)
          later.upstream.actor
          later.grad
        ≡ (actor_down, now.upstream.actor, grad1)
    pub critic_passes :
        b.propagate.critic out.critic (fl.times adv (fl.of_ℕ 2) ∷ []) later.upstream.critic grad1
        ≡ (critic_down, now.upstream.critic, grad2)
    pub base_passes :
        b.propagate.base out.base
          (zip_with fl.plus actor_down critic_down)
          later.upstream.base
          grad2
        ≡ (base_down, now.upstream.base, now.grad)
    pub mse_adds : now.mse ≡ fl.plus later.mse (fl.times adv adv)
    pub logs_add : now.logs ≡ later.logs ++ penalty_logged out.actor.output

  -- From the first step on; after the last one, no state has a gradient and nothing is summed.
  abbrev pub Chain : List (Blocks (Res F P)) → List (List F) → List F → Back F U D → Type 0
  Chain [] actions advs s =
      (s.grad ≡ b.new_grad agent)
      × (s.upstream.base ≡ b.no_state)
      × (s.upstream.actor ≡ b.no_state)
      × (s.upstream.critic ≡ b.no_state)
      × (s.mse ≡ fl.of_ℕ 0)
      × (s.logs ≡ [])
  Chain (out ∷ outs) [] advs s = ⊥
  Chain (out ∷ outs) (sampled ∷ actions) [] s = ⊥
  Chain (out ∷ outs) (sampled ∷ actions) (adv ∷ advs) s =
      (later : Back F U D) × Passes out sampled adv later s × Chain outs actions advs later

  -- The gradients of the log-probability and of the penalty have as many components.
  abbrev PenaltyFits : List F → Option (List F → List F × List F) → Type 0
  PenaltyFits params none = Unit
  PenaltyFits params (some regularize) =
      (sampled : List F) (adv : F)
      → length (b.log_prob_grad agent params sampled adv) ≡ length (regularize params).0

  -- The gradients whose vectors the code adds have as many components.
  pub record Fits (out : Blocks (Res F P)) : Type 0 where
    pub penalty : PenaltyFits out.actor.output b.regularizer
    pub down :
        (up up' : List F) (u u' : U) (d d' : D)
        → length (b.propagate.actor out.actor up u d).0
          ≡ length (b.propagate.critic out.critic up' u' d').0

  actor_upstream_lem :
      (params sampled : List F) (adv : F)
      → PenaltyFits params b.regularizer
      → actor_upstream sum b logging agent params sampled adv
        ≡ ok (actor_given params sampled adv, penalty_logged params)
  unfolding actor_upstream
  actor_upstream_lem params sampled adv fits = elim (Option-cases b.regularizer) [
    | inl nothing ↦ rw (nothing, actor_upstream) refl
    | inr (regularize, has) ↦
        let fits' : PenaltyFits params (some regularize) = rw has at fits in
        let added =
          entrywise_ok fl.plus _ (b.log_prob_grad agent params sampled adv) (regularize params).0
            (fits' sampled adv) refl in
        rw (has, added, actor_upstream) refl
  ]

  back_step-Passes :
      (out : Blocks (Res F P)) (sampled : List F) (adv : F) (s : Back F U D)
      → Fits out
      → (now : Back F U D) × Passes out sampled adv s now
        × (back_step sum b logging agent out sampled adv s ≡ ok now)
  unfolding back_step
  back_step-Passes out sampled adv s fits =
      let given = actor_given out.actor.output sampled adv in
      let twice = fl.times adv (fl.of_ℕ 2) ∷ [] in
      let (actor_down, actor, grad1) = b.propagate.actor out.actor given s.upstream.actor s.grad in
      let (critic_down, critic, grad2) =
        b.propagate.critic out.critic twice s.upstream.critic grad1 in
      let (base_down, base, grad3) =
        b.propagate.base out.base (zip_with fl.plus actor_down critic_down) s.upstream.base grad2 in
      let added =
        entrywise_ok fl.plus _ actor_down critic_down
          (fits.down given twice s.upstream.actor s.upstream.critic s.grad grad1) refl in
      (
        record {
          grad = grad3;
          upstream = record { base = base; actor = actor; critic = critic };
          mse = fl.plus s.mse (fl.times adv adv);
          logs = s.logs ++ penalty_logged out.actor.output;
        },
        record {
          actor_down = actor_down;
          critic_down = critic_down;
          base_down = base_down;
          grad1 = grad1;
          grad2 = grad2;
          actor_passes = refl;
          critic_passes = refl;
          base_passes = refl;
          mse_adds = refl;
          logs_add = refl;
        },
        rw (actor_upstream_lem out.actor.output sampled adv fits.penalty, added, back_step) refl,
      )

  through_time-Chain :
      (outs : List (Blocks (Res F P))) (actions : List (List F)) (advs : List F)
      → length outs ≡ length advs
      → length actions ≡ length advs
      → All Fits outs
      → (s : Back F U D) × Chain outs actions advs s
        × (through_time sum b logging agent outs actions advs (start_back sum b logging agent)
            ≡ ok s)
  unfolding through_time
  through_time-Chain [] actions advs h k fits =
      (start_back sum b logging agent, (refl, refl, refl, refl, refl, refl), refl)
  through_time-Chain (out ∷ outs) [] [] h k fits = absurd (omega arith)
  through_time-Chain (out ∷ outs) [] (adv ∷ advs) h k fits = absurd (omega arith)
  through_time-Chain (out ∷ outs) (sampled ∷ actions) [] h k fits = absurd (omega arith)
  through_time-Chain (out ∷ outs) (sampled ∷ actions) (adv ∷ advs) h k (fits, more) =
      let (later, chain, runs) =
        through_time-Chain outs actions advs (omega arith) (omega arith) more in
      let (now, passes, steps) = back_step-Passes out sampled adv later fits in
      (now, (later, passes, chain), rw runs steps)

module _ {F S L P G U D : Type 0} ⦃fl : Float F⦄ (api : AgentApi F L P G) (sum : List F → F)
    (b : BpttApi F L P U D) (logging : Bool) where
  -- For a rollout with as many outputs and actions as rewards, where there are parameters and the gradients
  -- that are added have as many components as each other: back-propagation does not panic. From no state
  -- gradients after the last step, each step gives the actor, the critic and then the base the state gradients
  -- that they had in the step after it: the actor with the gradient of the log-probability of the action for
  -- its advantage, and of the penalty; the critic with twice the advantage; the base with the sum of what these
  -- two pass down. At the beginning of an episode the state gradients of the first step reach the start states
  -- of base, actor and critic. The error is the sum of the squares of the advantages over their number, and the
  -- penalties are logged from the last step on.
  pub run_bptt-Chain :
      (r : Rollout F P) (w : Worker F S L P G) (discount : F)
      → b.has_params w.agent ≡ true
      → length r.outs ≡ length r.rewards
      → length r.sampled ≡ length r.rewards
      → All (Fits sum b logging w.agent) r.outs
      → let advs = advantage_specs sum discount (bootstrap api sum w) r.rewards r.outs in
        let start = b.propagate_start in
        (s : Back F U D) × Chain sum b logging w.agent r.outs r.sampled advs s
        × (run_bptt api sum b logging r w discount
            ≡ ok (
              if r.beginning
                  then start.critic w.agent s.upstream.critic (
                      start.actor w.agent s.upstream.actor
                        (start.base w.agent s.upstream.base s.grad))
                  else s.grad,
              fl.over s.mse (fl.of_ℕ (length r.rewards)),
              s.logs,
            ))
  unfolding finish_back
  run_bptt-Chain r w discount has same same' fits =
      let advs = advantage_specs sum discount (bootstrap api sum w) r.rewards r.outs in
      let as_many = length-specs sum discount (bootstrap api sum w) r.rewards r.outs same in
      let (s, chain, runs) =
        through_time-Chain sum b logging w.agent r.outs r.sampled advs (same ∙ sym as_many)
          (same' ∙ sym as_many) fits in
      (s, chain, run_bptt-through_time api sum b logging r w discount has same same' ∙ rw runs refl)
