-- ===== src/Ppo/Advantage.antt =====
-- `Advantage` of anypg/ppo.go, from the critic to the tape. Outputs of `Base` and `Critic`, which are
-- parameters, are the batches that they send.
use trpo.Prelude.{◌≡◌, refl, ap, sym, ◌∙◌, List, Option, none, some, length, replicate, []}
use trpo.Prelude.Float.{Float}
use trpo.Prelude.Failure.{Result, ok, ◌>>=◌}
use trpo.Rewards.{Rewards, Batch, tape, collect}
use trpo.Rewards.Tape.{collect-tape}
use trpo.Judger.{GaeJudger, gae_judge}
use trpo.Judger.Recursion.{gae_specs, IsCovered, gae_judge-gae_specs}

-- `applyBaseIn`
abbrev pub apply_base : {B : Type 0} → Option (B → B) → B → B
apply_base none inputs = inputs
apply_base (some base) inputs = base inputs

apply_base_lem :
    {B : Type 0} (base : Option (B → B)) (inputs : B)
    → apply_base base inputs ≡ elim base [ none ↦ inputs | some b ↦ b inputs ]
apply_base_lem none inputs = refl
apply_base_lem (some b) inputs = refl

module _ {F : Type 0} ⦃fl : Float F⦄ (base : Option (List (Batch F) → List (Batch F)))
    (critic : List (Batch F) → List (Batch F)) (discount lambda : F) where
  -- The judger of `Advantage`
  abbrev pub judger : GaeJudger F
  judger = record { discount = discount; lambda = lambda }

  -- `Advantage`; `none` would be a tape that does not end.
  unfoldable pub ppo_advantage : List (Batch F) → Rewards F → Result (Option (List (Batch F)))
  ppo_advantage inputs rewards =
      gae_judge judger (critic (apply_base base inputs)) rewards >>= λ advs. ok (tape advs)

  -- Where the critic, on the inputs themselves if there is no `Base` and on what it makes of them if there is
  -- one, gives the batches of some value sequences, one for each episode and at least as long: `Advantage`
  -- does not fault, and the tape that it returns reads back as the recursive estimates of the advantages, whose
  -- discount factor is `Discount` and whose decay is `Lambda`.
  pub ppo_advantage-gae_specs :
      (inputs : List (Batch F)) (rewards : Rewards F) (vals : List (List F))
      → length vals ≡ length rewards
      → IsCovered rewards vals
      → tape vals ≡ some (critic (elim base [ none ↦ inputs | some b ↦ b inputs ]))
      → let estimates = gae_specs (record { discount = discount; lambda = lambda }) rewards vals in
        (advs : List (Batch F)) × (ppo_advantage inputs rewards ≡ ok (some advs))
        × (collect (replicate (length estimates) []) advs ≡ ok estimates)
  unfolding ppo_advantage
  ppo_advantage-gae_specs inputs rewards vals same covered e =
      let g : GaeJudger F = record { discount = discount; lambda = lambda } in
      let e' = e ∙ ap (λ i. some (critic i)) (sym (apply_base_lem base inputs)) in
      let judged =
        gae_judge-gae_specs g rewards vals (critic (apply_base base inputs)) same covered e' in
      let (advs, written, read) = collect-tape (gae_specs g rewards vals) in
      (advs, rw (judged, written), read)
