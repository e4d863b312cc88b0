-- ===== src/Rewards/Reduce.antt =====
-- `Rewards.Reduce` (rewards.go), the counts of steps, and the shape of a reduced set.
use trpo.Prelude.{
  ℕ, suc, ◌+◌, ◌≡◌, refl, ap, List, [], ◌∷◌, ◌++◌, map, Bool, true, false, not, arith, length,
  if◌then◌else◌,
}
use trpo.Prelude.Failure.{ok}
use trpo.Rewards.{Rewards, reduce, pack_rewards}

-- The rewards of all sequences together.
abbrev pub steps_of : {F : Type 0} → Rewards F → ℕ
steps_of [] = 0
steps_of (seq ∷ r) = length seq + steps_of r

abbrev pub count_true : List Bool → ℕ
count_true [] = 0
count_true (p ∷ ps) = (if p then 1 else 0) + count_true ps

-- What is kept: the sequences at the places that are set, and `nil` elsewhere.
abbrev pub kept : {F : Type 0} → Rewards F → List Bool → Rewards F
kept [] ps = []
kept (seq ∷ r) [] = [] ∷ kept r []
kept (seq ∷ r) (p ∷ ps) = (if p then seq else []) ∷ kept r ps

pub reduce-kept :
    {F : Type 0} (r : Rewards F) (ps : List Bool)
    → length ps ≡ length r
    → reduce r ps ≡ ok (kept r ps)
unfolding reduce
reduce-kept [] [] h = refl
reduce-kept [] (p ∷ ps) h = absurd (omega arith)
reduce-kept (seq ∷ r) [] h = absurd (omega arith)
reduce-kept (seq ∷ r) (true ∷ ps) h = rw (reduce-kept r ps (omega arith))
reduce-kept (seq ∷ r) (false ∷ ps) h = rw (reduce-kept r ps (omega arith))

steps_of-kept :
    {F : Type 0} (r : Rewards F) (ps : List Bool)
    → length ps ≡ length r
    → steps_of (kept r ps) + steps_of (kept r (map not ps)) ≡ steps_of r
steps_of-kept [] [] h = refl
steps_of-kept [] (p ∷ ps) h = absurd (omega arith)
steps_of-kept (seq ∷ r) [] h = absurd (omega arith)
steps_of-kept (seq ∷ r) (true ∷ ps) h = omega (arith, steps_of-kept r ps (omega arith))
steps_of-kept (seq ∷ r) (false ∷ ps) h = omega (arith, steps_of-kept r ps (omega arith))

length-map-not : (ps : List Bool) → length (map not ps) ≡ length ps
length-map-not [] = refl
length-map-not (p ∷ ps) = ap suc (length-map-not ps)

-- Reducing by a mask and by its complement, of one entry for each sequence, neither fails nor loses a
-- step: the two parts have together as many steps as the rewards.
pub reduce_complement :
    {F : Type 0} (r : Rewards F) (ps : List Bool)
    → length ps ≡ length r
    → (a b : Rewards F) × (reduce r ps ≡ ok a)
      × (reduce r (map not ps) ≡ ok b)
      × (steps_of a + steps_of b ≡ steps_of r)
reduce_complement r ps h = (
  kept r ps,
  kept r (map not ps),
  reduce-kept r ps h,
  reduce-kept r (map not ps) (omega (arith, length-map-not ps)),
  steps_of-kept r ps h,
)

steps_of-append : {F : Type 0} (a b : Rewards F) → steps_of (a ++ b) ≡ steps_of a + steps_of b
steps_of-append [] b = omega arith
steps_of-append (seq ∷ a) b = omega (arith, steps_of-append a b)

-- The steps of several `Rewards` objects, together.
abbrev pub sum_steps : {F : Type 0} → List (Rewards F) → ℕ
sum_steps [] = 0
sum_steps (r ∷ rs) = steps_of r + sum_steps rs

pub steps_of-pack_rewards :
    {F : Type 0} (rs : List (Rewards F)) → steps_of (pack_rewards rs) ≡ sum_steps rs
unfolding pack_rewards
steps_of-pack_rewards [] = refl
steps_of-pack_rewards (r ∷ rs) =
    omega (arith, steps_of-append r (pack_rewards rs), steps_of-pack_rewards rs)
