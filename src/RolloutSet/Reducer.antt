-- ===== src/RolloutSet/Reducer.antt =====
-- `FracReducer.Reduce` (reduce.go) and the step counts of rollout_set.go.
use trpo.Prelude.{
  ℕ, zero, suc, ◌+◌, ◌≤◌, ◌<◌, ◌≡◌, refl, ap, ◌≢◌, ◌∙◌, List, [], ◌∷◌, map, Bool, true, false,
  Option, some, arith, length, get_elem?, set, length-set, take, replicate, length-replicate,
  length-take, All, lt→ltb, le→ltb,
}
use trpo.Prelude.Float.{Float}
use trpo.Prelude.Failure.{ok}
use trpo.Rewards.{Rewards, pack_rewards}
use trpo.Rewards.Reduce.{steps_of, count_true, kept, reduce-kept, sum_steps, steps_of-pack_rewards}
use trpo.RolloutSet.{
  RolloutSet, Tapes, FracReducer, num_steps, count_steps, pack_rollout_sets, mark, reduced_set,
  frac_reduce,
}

count_steps-eq : {F : Type 0} (count : ℕ) (r : Rewards F) → count_steps count r ≡ count + steps_of r
unfolding count_steps
count_steps-eq count [] = omega arith
count_steps-eq count (seq ∷ r) = omega (arith, count_steps-eq (count + length seq) r)

module _ {T F : Type 0} where
  -- What the sets count by themselves, added up.
  abbrev pub total_steps : List (RolloutSet T F) → ℕ
  total_steps [] = 0
  total_steps (r ∷ rs) = num_steps r + total_steps rs

  total_steps-eq :
      (rs : List (RolloutSet T F)) → total_steps rs ≡ sum_steps (map (λ r. r.rewards) rs)
  unfolding num_steps
  total_steps-eq [] = refl
  total_steps-eq (r ∷ rs) = omega (arith, count_steps-eq 0 r.rewards, total_steps-eq rs)

  -- A packed set has as many steps as the sets that it is packed from have together, however tapes
  -- are packed.
  pub num_steps-pack_rollout_sets :
      (pack_tape : List (Option T) → T) (rs : List (RolloutSet T F))
      → num_steps (pack_rollout_sets pack_tape rs) ≡ total_steps rs
  unfolding num_steps pack_rollout_sets
  num_steps-pack_rollout_sets pack_tape rs =
      let all = pack_rewards (map (λ r. r.rewards) rs) in
      omega (
        arith,
        count_steps-eq 0 all,
        steps_of-pack_rewards (map (λ r. r.rewards) rs),
        total_steps-eq rs,
      )

abbrev pub IsDistinct : List ℕ → Type 0
IsDistinct [] = Unit
IsDistinct (j ∷ js) = All (λ k. j ≢ k) js × IsDistinct js

-- What the documentation of `rand.Perm` says that the code relies on.
pub record IsPerm (n : ℕ) (js : List ℕ) : Type 0 where
  pub count : length js ≡ n
  pub bound : All (λ j. j < n) js
  pub distinct : IsDistinct js

-- The place is there, and is not set.
abbrev IsUnset : List Bool → ℕ → Type 0
IsUnset present j = get_elem? present j ≡ some false

get_elem?-set_ne : (ps : List Bool) (i j : ℕ) → i ≢ j → get_elem? (set ps i true) j ≡ get_elem? ps j
get_elem?-set_ne [] i j h = refl
get_elem?-set_ne (p ∷ ps) zero zero h = absurd (h refl)
get_elem?-set_ne (p ∷ ps) zero (suc j) h = refl
get_elem?-set_ne (p ∷ ps) (suc i) zero h = refl
get_elem?-set_ne (p ∷ ps) (suc i) (suc j) h = get_elem?-set_ne ps i j (λ e. h (ap suc e))

IsUnset-lt : (ps : List Bool) (j : ℕ) → IsUnset ps j → j < length ps
IsUnset-lt [] j h = cc
IsUnset-lt (p ∷ ps) zero h = omega arith
IsUnset-lt (p ∷ ps) (suc j) h = omega (arith, IsUnset-lt ps j h)

count_true-set :
    (ps : List Bool) (j : ℕ) → IsUnset ps j → count_true (set ps j true) ≡ count_true ps + 1
count_true-set [] j h = cc
count_true-set (p ∷ ps) zero h = ground arith
count_true-set (p ∷ ps) (suc j) h = ground (arith, count_true-set ps j h)

All-IsUnset-set :
    (ps : List Bool) (i : ℕ) (js : List ℕ)
    → All (λ k. i ≢ k) js
    → All (IsUnset ps) js
    → All (IsUnset (set ps i true)) js
All-IsUnset-set ps i [] ne h = tt
All-IsUnset-set ps i (j ∷ js) (n, ne) (h, hs) =
    (get_elem?-set_ne ps i j n ∙ h, All-IsUnset-set ps i js ne hs)

pub record IsMarked (present : List Bool) (js : List ℕ) : Type 0 where
  pub places : List Bool
  pub marked : mark present js ≡ ok places
  pub counted : count_true places ≡ count_true present + length js
  pub sized : length places ≡ length present

mark-IsMarked :
    (present : List Bool) (js : List ℕ)
    → All (IsUnset present) js
    → IsDistinct js
    → IsMarked present js
unfolding mark
mark-IsMarked present [] unset d = record {
  places = present;
  marked = refl;
  counted = omega arith;
  sized = refl;
}
mark-IsMarked present (j ∷ js) (u, unset) (ne, d) =
    let m = mark-IsMarked (set present j true) js (All-IsUnset-set present j js ne unset) d in
    record {
      places = m.places;
      marked = rw (lt→ltb j (length present) (IsUnset-lt present j u)) m.marked;
      counted = omega (arith, m.counted, count_true-set present j u);
      sized = omega (arith, m.sized, length-set present j true);
    }

All-take {ℓ κ} : {A : Type ℓ} (P : A → Type κ) (n : ℕ) (xs : List A) → All P xs → All P (take n xs)
All-take P zero xs h = tt
All-take P (suc n) [] h = tt
All-take P (suc n) (x ∷ xs) (h, hs) = (h, All-take P n xs hs)

IsDistinct-take : (n : ℕ) (js : List ℕ) → IsDistinct js → IsDistinct (take n js)
IsDistinct-take zero js d = tt
IsDistinct-take (suc n) [] d = tt
IsDistinct-take (suc n) (j ∷ js) (ne, d) = (All-take (λ k. j ≢ k) n js ne, IsDistinct-take n js d)

get_elem?-replicate : (n j : ℕ) → j < n → IsUnset (replicate n false) j
get_elem?-replicate zero j h = absurd (omega arith)
get_elem?-replicate (suc n) zero h = refl
get_elem?-replicate (suc n) (suc j) h = get_elem?-replicate n j (omega arith)

All-IsUnset-replicate :
    (n : ℕ) (js : List ℕ) → All (λ j. j < n) js → All (IsUnset (replicate n false)) js
All-IsUnset-replicate n [] h = tt
All-IsUnset-replicate n (j ∷ js) (h, hs) =
    (get_elem?-replicate n j h, All-IsUnset-replicate n js hs)

count_true-replicate : (n : ℕ) → count_true (replicate n false) ≡ 0
count_true-replicate zero = refl
count_true-replicate (suc n) = omega (arith, count_true-replicate n)

module _ {T F : Type 0} ⦃fl : Float F⦄ (lib : Tapes T F) where
  -- The number of rollouts that are asked for.
  abbrev pub selected : FracReducer T F → RolloutSet T F → ℕ
  selected f r = fl.ceil (fl.times f.frac (fl.of_ℕ (length r.rewards)))

  -- If the number of rollouts that are asked for, the fraction rounded up, is at most the number of
  -- rollouts, and `rand.Perm` gives a permutation, then `Reduce` does not fault. It keeps exactly as
  -- many sequences as are asked for, and the reduced rewards are the kept ones, with the others empty.
  pub frac_reduce_selects :
      (perm : ℕ → List ℕ) (f : FracReducer T F) (r : RolloutSet T F)
      → selected f r ≤ length r.rewards
      → IsPerm (length r.rewards) (perm (length r.rewards))
      → (present : List Bool) × (res : RolloutSet T F) × (frac_reduce lib perm f r ≡ ok res)
        × (length present ≡ length r.rewards)
        × (count_true present ≡ selected f r)
        × (res.rewards ≡ kept r.rewards present)
  unfolding frac_reduce
  frac_reduce_selects perm f r few p =
      let n = length r.rewards in
      let k = selected f r in
      let js = take k (perm n) in
      let m =
        mark-IsMarked (replicate n false) js
          (All-IsUnset-replicate n js (All-take (λ j. j < n) k (perm n) p.bound))
          (IsDistinct-take k (perm n) p.distinct) in
      let sized : length m.places ≡ n = omega (arith, m.sized, length-replicate n false) in
      (
        m.places,
        reduced_set lib f r m.places (kept r.rewards m.places),
        rw (le→ltb n k few, m.marked, reduce-kept r.rewards m.places sized),
        sized,
        omega (arith, m.counted, count_true-replicate n, length-take k (perm n), p.count),
        refl,
      )
