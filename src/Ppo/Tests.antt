-- ===== src/Ppo/Tests.antt =====
-- Objectives and terms of small batches over integers.
use trpo.Prelude.{
  length, replicate, List, ℕ, ◌+◌, ◌-◌, subst, ◌*◌, ◌≡◌, ◌≤◌, refl, [], ◌∷◌, ◌++◌, true, false,
  some, arith,
}
use trpo.Prelude.Int.{ℤ, pos, negsuc, pos_part, neg_part, sub_ℕ, int_float}
use native.Mathlib.Nat.{mul-le-mul_right}
use trpo.Prelude.Failure.{ok}
use trpo.Ppo.{ppo_objective, critic_coeff, objective_terms, entropy_reg, Ppo}
use trpo.Rewards.{Rewards, Batch, tape, collect}
use trpo.Judger.{GaeJudger}
use trpo.Judger.Recursion.{gae_specs}
use trpo.Ppo.Advantage.{ppo_advantage, ppo_advantage-gae_specs}
use trpo.Ppo.Clipped.{Ordered, pessimistic, ppo_objective-pessimistic}

objective_test :
    ppo_objective (pos 1) (pos 3 ∷ negsuc 0 ∷ pos 1 ∷ []) (pos 2 ∷ negsuc 1 ∷ pos 5 ∷ [])
    ≡ ok (pos 4 ∷ pos 0 ∷ pos 5 ∷ [])
unfolding ppo_objective
objective_test = refl

product_le :
    (px nx py ny na e : ℕ)
    → px + ny ≤ py + nx
    → (px * (na + e) + nx * na) + (py * na + ny * (na + e))
      ≤ (py * (na + e) + ny * na) + (px * na + nx * (na + e))
product_le px nx py ny na e h =
    let scaled : (px + ny) * e ≤ (py + nx) * e = mul-le-mul_right e h in grind (arith, scaled)

product_keeps :
    (px nx py ny pa na : ℕ)
    → px + ny ≤ py + nx
    → na ≤ pa
    → (px * pa + nx * na) + (py * na + ny * pa) ≤ (py * pa + ny * na) + (px * na + nx * pa)
product_keeps px nx py ny pa na h k =
    let all : na + (pa - na) ≡ pa = omega arith in
    subst (λ p. (px * p + nx * na) + (py * na + ny * p) ≤ (py * p + ny * na) + (px * na + nx * p))
      all (product_le px nx py ny na (pa - na) h)

not_below : (a b c d : ℕ) → c + b ≤ a + d → int_float.below (sub_ℕ a b) (sub_ℕ c d) ≡ false
not_below a b c d h = ground arith

keeps_lem :
    (x y a : ℤ)
    → int_float.below x y ≡ true
    → int_float.below a (pos 0) ≡ false
    → int_float.below (int_float.times y a) (int_float.times x a) ≡ false
keeps_lem x y a h k =
    let le =
      product_keeps (pos_part x) (neg_part x) (pos_part y) (neg_part y) (pos_part a) (neg_part a)
        (ground arith) (ground arith) in
    not_below _ _ _ _ le

turns_lem :
    (x y a : ℤ)
    → int_float.below x y ≡ true
    → int_float.below a (pos 0) ≡ true
    → int_float.below (int_float.times x a) (int_float.times y a) ≡ false
turns_lem x y a h k =
    let le =
      product_keeps (pos_part x) (neg_part x) (pos_part y) (neg_part y) (neg_part a) (pos_part a)
        (ground arith) (ground arith) in
    not_below _ _ _ _ (omega (arith, le))

tie_lem : (x y : ℤ) → int_float.below x y ≡ false → int_float.below y x ≡ false → x ≡ y
tie_lem (pos x) (pos y) h k = ground arith
tie_lem (pos x) (negsuc y) h k = ground arith
tie_lem (negsuc x) (pos y) h k = ground arith
tie_lem (negsuc x) (negsuc y) h k = ground arith

order_laws : Ordered int_float
order_laws = record { keeps = keeps_lem; turns = turns_lem; tie = tie_lem }

ppo_objective-pessimistic_example :
    ppo_objective
      (pos 1)
      (pos 3 ∷ negsuc 0 ∷ pos 1 ∷ negsuc 4 ∷ [])
      (pos 2 ∷ negsuc 1 ∷ pos 5 ∷ pos 3 ∷ [])
    ≡ ok (pos 4 ∷ pos 0 ∷ pos 5 ∷ negsuc 14 ∷ [])
unfolding pessimistic
ppo_objective-pessimistic_example =
    ppo_objective-pessimistic order_laws (pos 1) (pos 3 ∷ negsuc 0 ∷ pos 1 ∷ negsuc 4 ∷ [])
      (pos 2 ∷ negsuc 1 ∷ pos 5 ∷ pos 3 ∷ []) refl

abbrev ppo_of : ℤ → Ppo ℤ
ppo_of weight = record {
  log_prob = λ params output batch. ok params;
  critic_weight = weight;
  epsilon = pos 1;
  regularizer = some (entropy_reg (λ params batch. ok params) (pos 2));
  exp = λ x. int_float.plus x (pos 1);
  square = λ x. int_float.times x x;
  mix = λ xs ys batch. ok (xs ++ ys);
}

-- The ratio is 3, of which 2 counts; the critic is wrong by 2.
terms_test :
    objective_terms
      (ppo_of (pos 3))
      (pos 4 ∷ [])
      (pos 6 ∷ [])
      (pos 2 ∷ [])
      (pos 0 ∷ [])
      (pos 5 ∷ [])
      (pos 8 ∷ [])
      1
    ≡ ok (pos 10 ∷ negsuc 11 ∷ pos 8 ∷ [])
unfolding objective_terms entropy_reg
terms_test = refl

default_weight : critic_coeff (ppo_of (pos 0)) ≡ negsuc 0
unfolding critic_coeff
default_weight = refl

abbrev no_inputs : List (Batch ℤ)
no_inputs = []

-- The values of two episodes, of two steps and of one.
abbrev values_out : List (Batch ℤ)
values_out =
    record { packed = pos 4 ∷ pos 6 ∷ []; present = true ∷ true ∷ [] }
    ∷ record { packed = pos 5 ∷ []; present = true ∷ false ∷ [] }
    ∷ []

abbrev values : Rewards ℤ
values = (pos 4 ∷ pos 5 ∷ []) ∷ (pos 6 ∷ []) ∷ []

abbrev episodes : Rewards ℤ
episodes = (pos 1 ∷ pos 2 ∷ []) ∷ (pos 5 ∷ []) ∷ []

-- The critic is given what `Base` makes of the inputs.
abbrev doubled : List (Batch ℤ) → List (Batch ℤ)
doubled inputs = inputs ++ inputs

abbrev reads : List (Batch ℤ) → List (Batch ℤ)
reads [] = values_out
reads (b ∷ inputs) = []

abbrev gae : GaeJudger ℤ
gae = record { discount = pos 2; lambda = pos 1 }

ppo_advantage-gae_specs_example :
    (advs : List (Batch ℤ)) × (ppo_advantage (some doubled) reads (pos 2) (pos 1) no_inputs episodes
      ≡ ok (some advs))
    × (collect (replicate (length (gae_specs gae episodes values)) []) advs
        ≡ ok (gae_specs gae episodes values))
unfolding tape
ppo_advantage-gae_specs_example =
    ppo_advantage-gae_specs (some doubled) reads (pos 2) (pos 1) no_inputs episodes values refl
      (omega arith, (omega arith, tt)) refl
