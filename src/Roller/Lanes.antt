-- ===== src/Roller/Lanes.antt =====
-- `rolloutStep` (rnn_roller.go): what one batched step does to each environment.
use trpo.Prelude.{
  ℕ, suc, ◌<◌, ◌≡◌, ◌⊎◌, inl, inr, refl, ap, sym, ◌∙◌, subst, List, [], ◌∷◌, ◌++◌, map, map-append,
  Bool, true, false, not, none, length, drop, All, Bool-cases, Option-cases, arith, if◌then◌else◌,
}
use trpo.Prelude.Failure.{Error, err, ok}
use trpo.Env.{Env, StepOut, run}
use trpo.Env.Runs.{run-append-0, run-append-1}
use trpo.ParamServer.Moves.{All-snoc}
use trpo.Rewards.{Batch, distribute}
use trpo.Roller.{num_present, split_actions, join_observations, batch_step}

-- An environment of a rollout: its state after the reset and now, its rewards, and whether it is present.
pub data Lane (F S : Type 0) : Type 0 where
  lane : S → S → List F → Bool → Lane F S

module _ {F S : Type 0} where
  abbrev pub first : Lane F S → S
  first (lane s0 s rs p) = s0

  abbrev pub now : Lane F S → S
  now (lane s0 s rs p) = s

  abbrev pub rewards : Lane F S → List F
  rewards (lane s0 s rs p) = rs

  abbrev pub present : Lane F S → Bool
  present (lane s0 s rs p) = p

-- No step before the last one was the end of the episode, and the last one was if the environment is not
-- present.
abbrev pub Runs : {F : Type 0} → Bool → List (StepOut F) → Type 0
Runs p [] = p ≡ true
Runs p (o ∷ []) = p ≡ not o.done
Runs p (o ∷ o2 ∷ outs) = (o.done ≡ false) × Runs p (o2 ∷ outs)

pub length-split_actions :
    {F : Type 0} (size : ℕ) (ps : List Bool) (packed : List F)
    → length (split_actions size ps packed) ≡ num_present ps
length-split_actions size [] packed = refl
length-split_actions size (true ∷ ps) packed =
    ap suc (length-split_actions size ps (drop size packed))
length-split_actions size (false ∷ ps) packed = length-split_actions size ps packed

Runs-snoc :
    {F : Type 0} (outs : List (StepOut F)) (o : StepOut F)
    → Runs true outs
    → Runs (not o.done) (outs ++ o ∷ [])
Runs-snoc [] o h = refl
Runs-snoc (x ∷ []) o h = (ground (arith, h), refl)
Runs-snoc (x ∷ y ∷ outs) o (h, hs) = (h, Runs-snoc (y ∷ outs) o hs)

-- An environment that is present has less than `n` steps left.
abbrev pub Short : {F S : Type 0} → (S → ℕ) → ℕ → Lane F S → Type 0
Short left n l = (present l ≡ false) ⊎ (left (now l) < n)

abbrev next_batch : {F : Type 0} → Bool → List F → Batch F → Batch F
next_batch over obs b =
    if over
    then record { packed = b.packed; present = false ∷ b.present }
    else record { packed = obs ++ b.packed; present = true ∷ b.present }

present_next :
    {F : Type 0} (over : Bool) (obs : List F) (b : Batch F)
    → (next_batch over obs b).present ≡ not over ∷ b.present
present_next true obs b = refl
present_next false obs b = refl

module _ {F S : Type 0} (env : Env F S) where
  -- An environment has got to its state by the actions for it, with its rewards and without errors.
  pub record IsLane (l : Lane F S) : Type 0 where
    pub actions : List (List F)
    pub played : now l ≡ (run env.step (first l) actions).1
    pub got : rewards l ≡ map (λ o. o.rew) (run env.step (first l) actions).0
    pub no_error : All (λ o. o.error ≡ none) (run env.step (first l) actions).0
    pub until_done : Runs (present l) (run env.step (first l) actions).0

  IsLane-next :
      (s0 : S) (actions : List (List F)) (a : List F)
      → let (outs, s) = run env.step s0 actions in
        let (o, s') = env.step s a in
        o.error ≡ none
        → All (λ o. o.error ≡ none) outs
        → Runs true outs
        → IsLane (lane s0 s' (map (λ o. o.rew) outs ++ o.rew ∷ []) (not o.done))
  unfolding run
  IsLane-next s0 actions a good fine runs =
      let (outs, s) = run env.step s0 actions in
      let o = (env.step s a).0 in
      record {
        actions = actions ++ a ∷ [];
        played = sym (run-append-1 env.step s0 actions (a ∷ []));
        got = rw (run-append-0 env.step s0 actions (a ∷ []), map-append) refl;
        no_error = rw (run-append-0 env.step s0 actions (a ∷ [])) (All-snoc _ outs o good fine);
        until_done = rw (run-append-0 env.step s0 actions (a ∷ [])) (Runs-snoc outs o runs);
      }

  IsLane-step :
      (s0 s : S) (rs : List F) (a : List F)
      → (env.step s a).0.error ≡ none
      → IsLane (lane s0 s rs true)
      → IsLane
          (lane s0 (env.step s a).1 (rs ++ (env.step s a).0.rew ∷ []) (not (env.step s a).0.done))
  IsLane-step s0 s rs a good h =
      let good' = subst (λ s. (env.step s a).0.error ≡ none) h.played good in
      let next = IsLane-next s0 h.actions a good' h.no_error h.until_done in
      subst
        (λ s.
          IsLane (
            lane s0 (env.step s a).1 (rs ++ (env.step s a).0.rew ∷ []) (not (env.step s a).0.done)))
        (sym h.played)
        (subst
          (λ rs. IsLane (
            lane s0 (env.step (run env.step s0 h.actions).1 a).1
              (rs ++ (env.step (run env.step s0 h.actions).1 a).0.rew ∷ [])
              (not (env.step (run env.step s0 h.actions).1 a).0.done)))
          (sym h.got) next)

  module _ (left : S → ℕ)
      (falls : (s : S) (a : List F)
        → (env.step s a).0.done ≡ false
        → left (env.step s a).1 < left s) where
    Short-step :
        (n : ℕ) (s0 s : S) (rs : List F) (a : List F)
        → Short left (suc n) (lane s0 s rs true)
        → Short left n
            (lane s0 (env.step s a).1 (rs ++ (env.step s a).0.rew ∷ []) (not (env.step s a).0.done))
    Short-step n s0 s rs a short = elim (Bool-cases (env.step s a).0.done) [
      | inl over ↦ inl (rw over refl)
      | inr going ↦
          let fell = falls s a going in
          inr (elim short [ inl absent ↦ cc | inr small ↦ omega (arith, fell, small) ])
    ]

    -- What a batched step leads to: an error, or the next lanes of the same environments.
    abbrev pub Leads : ℕ → List (Lane F S) → List (List F) → Type 0
    Leads n ls actions =
        let (outs, envs) = batch_step env (map present ls) (map now ls) actions in
        ((e : Error) × (join_observations (map present ls) outs ≡ err e))
        ⊎ ((b : Batch F) × (ls' : List (Lane F S)) × (join_observations (map present ls) outs
              ≡ ok b)
            × (b.present ≡ map present ls')
            × (envs ≡ map now ls')
            × (distribute (map rewards ls) (map present ls) (map (λ o. o.rew) outs)
                ≡ ok (map rewards ls'))
            × (map first ls' ≡ map first ls)
            × All IsLane ls'
            × All (Short left n) ls')

    pub batch_step-Leads :
        (n : ℕ) (ls : List (Lane F S)) (actions : List (List F))
        → All IsLane ls
        → All (Short left (suc n)) ls
        → length actions ≡ num_present (map present ls)
        → Leads n ls actions
    unfolding batch_step join_observations distribute
    batch_step-Leads n [] actions a sh h =
        inr (record { packed = []; present = [] }, [], refl, refl, refl, refl, refl, tt, tt)
    batch_step-Leads n (lane s0 s rs false ∷ ls) actions (l, a) (short, shorts) h =
        elim (batch_step-Leads n ls actions a shorts h) [
          | inl (e, bad) ↦ inl (e, rw (bad, join_observations) refl)
          | inr (b, ls', joins, here, envs, given, same, a', sh') ↦ inr (
            record { packed = b.packed; present = false ∷ b.present },
            lane s0 s rs false ∷ ls',
            rw (joins, join_observations) refl,
            ap (◌∷◌ false) here,
            ap (◌∷◌ s) envs,
            rw (given, distribute) refl,
            ap (◌∷◌ s0) same,
            (l, a'),
            (inl refl, sh'),
          )
        ]
    batch_step-Leads n (lane s0 s rs true ∷ ls) [] (l, a) (short, shorts) h = absurd (omega arith)
    batch_step-Leads n (lane s0 s rs true ∷ ls) (act ∷ actions) (l, a) (short, shorts) h =
        let (o, s') = env.step s act in
        elim (Option-cases o.error) [
          | inr (e, bad) ↦ inl (e, rw (bad, join_observations) refl)
          | inl good ↦ elim (batch_step-Leads n ls actions a shorts (omega arith)) [
            | inl (e, bad) ↦ inl (e, rw (good, bad, join_observations) refl)
            | inr (b, ls', joins, here, envs, given, same, a', sh') ↦ inr (
              next_batch o.done o.obs b,
              lane s0 s' (rs ++ o.rew ∷ []) (not o.done) ∷ ls',
              rw (good, joins, join_observations) refl,
              present_next o.done o.obs b ∙ ap (◌∷◌ (not o.done)) here,
              ap (◌∷◌ s') envs,
              rw (given, distribute) refl,
              ap (◌∷◌ s0) same,
              (IsLane-step s0 s rs act good l, a'),
              (Short-step n s0 s rs act short, sh'),
            )
          ]
        ]
