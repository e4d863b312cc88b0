-- ===== src/Ppo.antt =====
-- anypg/ppo.go: the clipped objective and the terms of one step of a batch; and anypg/regularizer.go. Vectors
-- are lists, and what is computed is the value of an expression. `AddRepeated` adds copies of a vector.
pub mod Clipped
pub mod Advantage
mod Tests
use trpo.Prelude.{ℕ, List, map, Option, none, some, length, replicate, if◌then◌else◌}
use trpo.Prelude.Float.{Float}
use trpo.Prelude.Failure.{Result, ok, ◌>>=◌}
use trpo.ActionSpace.Densities.{sub, mul, scale, entrywise, minus_one}

module _ {F : Type 0} ⦃fl : Float F⦄ where
  open fl use {of_ℕ, plus, minus, times, over, below, differs}

  -- `ClipRange` and `ElemMin`, of one entry
  abbrev pub clip : F → F → F → F
  clip low high x = if below x low then low else if below high x then high else x

  abbrev pub smaller : F → F → F
  smaller x y = if below y x then y else x

  -- `PPOObjective`
  unfoldable pub ppo_objective : F → List F → List F → Result (List F)
  ppo_objective eps rats advs =
      let clipped = map (clip (minus (of_ℕ 1) eps) (plus (of_ℕ 1) eps)) rats in
      mul clipped advs >>= λ bounded. mul rats advs >>= λ plain. entrywise smaller bounded plain

  -- `clippedObjective`, given the field `Epsilon`
  unfoldable pub clipped_objective : F → List F → List F → Result (List F)
  unfolding ppo_objective
  clipped_objective epsilon ratios advantages =
      ppo_objective (if differs epsilon (of_ℕ 0) then epsilon else over (of_ℕ 1) (of_ℕ 5)) ratios
        advantages

  -- `Regularize` of the three regularizers, given the entropies or the divergences
  unfoldable pub entropy_reg : (List F → ℕ → Result (List F)) → F → List F → ℕ → Result (List F)
  entropy_reg entropy coeff params batch = entropy params batch >>= λ e. ok (scale e coeff)

  unfoldable pub inv_entropy_reg : (List F → ℕ → Result (List F)) → F → List F → ℕ → Result (List F)
  inv_entropy_reg entropy coeff params batch =
      entropy params batch >>= λ e. ok (scale (map (λ x. over (of_ℕ 1) x) e) (minus (of_ℕ 0) coeff))

  -- with `AddRepeated`, which fills a vector of a length with copies of another
  unfoldable pub kl_reg :
      (ℕ → List F → Result (List F))
      → (List F → List F → ℕ → Result (List F))
      → List F
      → F
      → List F
      → ℕ
      → Result (List F)
  kl_reg repeated kl base coeff params batch = repeated (length params) base >>= λ repeated_base.
      kl repeated_base params batch >>= λ value. ok (scale value (minus (of_ℕ 0) coeff))

-- `PPO`: `ActionSpace`, `CriticWeight`, `Epsilon` and `Regularizer`, on which the terms of its objective depend;
-- and what they use of the vector library, `exp` and `square` of numbers and `ConcatMixer.Mix`.
pub record Ppo (F : Type 0) : Type 0 where
  pub log_prob : List F → List F → ℕ → Result (List F)
  pub critic_weight : F
  pub epsilon : F
  pub regularizer : Option (List F → ℕ → Result (List F))
  pub exp : F → F
  pub square : F → F
  pub mix : List F → List F → ℕ → Result (List F)

module _ {F : Type 0} ⦃fl : Float F⦄ where
  open fl use {of_ℕ, times, differs}

  -- `criticCoeff`
  unfoldable pub critic_coeff : Ppo F → F
  critic_coeff p =
      if differs p.critic_weight (of_ℕ 0) then times minus_one p.critic_weight else minus_one

  unfoldable pub advantage_term : Ppo F → List F → List F → List F → List F → ℕ → Result (List F)
  unfolding clipped_objective
  advantage_term p actor old_outs actions advantage n = p.log_prob actor actions n >>= λ new_log.
      p.log_prob old_outs actions n >>= λ old_log.
      sub new_log old_log >>= λ diff. clipped_objective p.epsilon (map p.exp diff) advantage

  unfoldable pub critic_term : Ppo F → List F → List F → Result (List F)
  unfolding critic_coeff
  critic_term p critic targets =
      sub critic targets >>= λ diff. ok (scale (map p.square diff) (critic_coeff p))

  unfoldable pub reg_term : Ppo F → List F → ℕ → Result (List F)
  reg_term p actor n = elim p.regularizer [
    | some regularize ↦ regularize actor n
    | none ↦ ok (replicate n (of_ℕ 0))
  ]

  -- The function that `Run` maps over the batches.
  unfoldable pub objective_terms :
      Ppo F → List F → List F → List F → List F → List F → List F → ℕ → Result (List F)
  unfolding advantage_term critic_term reg_term
  objective_terms p actor critic old_outs actions advantage targets n =
      advantage_term p actor old_outs actions advantage n >>= λ adv_term.
      critic_term p critic targets >>= λ critic_terms. reg_term p actor n >>= λ reg_terms.
      p.mix adv_term critic_terms n >>= λ mixed. p.mix mixed reg_terms n
