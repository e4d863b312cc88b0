-- ===== src/Rewards.antt =====
-- rewards.go, and the loop of anypg/judger.go that reads such a tape back into sequences.
-- A tape is the list of the batches that are written to it.
pub mod Tape
pub mod Reduce
mod Tests
use trpo.Prelude.{
  ℕ, zero, suc, ◌+◌, List, [], ◌∷◌, ◌++◌, map, Bool, true, false, Option, none, some, concat,
  length, get_elem?,
}
use trpo.Prelude.Float.{Float}
use trpo.Prelude.Failure.{Result, ok, panic, ◌>>=◌}

abbrev pub Rewards : Type 0 → Type 0
Rewards F = List (List F)

-- `anyseq.Batch`
pub record Batch (F : Type 0) : Type 0 where
  pub packed : List F
  pub present : List Bool

module _ {F : Type 0} where
  pub pack_rewards : List (Rewards F) → Rewards F
  pack_rewards [] = []
  pack_rewards (x ∷ r) = x ++ pack_rewards r

  -- One round of the loop of `Tape`: the step `t` of the sequences that are longer.
  pub batch_at : ℕ → Rewards F → Batch F
  batch_at t [] = record { packed = []; present = [] }
  batch_at t (seq ∷ r) =
      let b = batch_at t r in
      elim (get_elem? seq t) [
        | some x ↦ record { packed = x ∷ b.packed; present = true ∷ b.present }
        | none ↦ record { packed = b.packed; present = false ∷ b.present }
      ]

  -- The loop of `Tape` from step `t`. `none` means that the fuel ran out.
  pub tape_from : ℕ → ℕ → Rewards F → Option (List (Batch F))
  tape_from zero t r = none
  tape_from (suc fuel) t r =
      let rest = tape_from fuel (t + 1) r in
      let b = batch_at t r in
      elim b.packed [ [] ↦ some [] | x ∷ xs ↦ elim rest [ none ↦ none | some bs ↦ some (b ∷ bs) ] ]

  -- There are no more rounds than rewards, and one more round that finds nothing.
  unfoldable pub tape : Rewards F → Option (List (Batch F))
  unfolding tape_from batch_at
  tape r = tape_from (suc (length (concat r))) 0 r

  -- `for i, pres := range outBatch.Present { if pres { ... } }` in `GAEJudger.JudgeActions`
  unfoldable pub distribute : List (List F) → List Bool → List F → Result (List (List F))
  distribute vals [] comps = ok vals
  distribute [] (true ∷ ps) comps = panic
  distribute [] (false ∷ ps) comps = distribute [] ps comps
  distribute (v ∷ vals) (true ∷ ps) [] = panic
  distribute (v ∷ vals) (true ∷ ps) (c ∷ comps) =
      distribute vals ps comps >>= λ rest. ok ((v ++ (c ∷ [])) ∷ rest)
  distribute (v ∷ vals) (false ∷ ps) comps = distribute vals ps comps >>= λ rest. ok (v ∷ rest)

  -- `for outBatch := range criticOut { ... }`
  unfoldable pub collect : List (List F) → List (Batch F) → Result (List (List F))
  unfolding distribute
  collect vals [] = ok vals
  collect vals (b ∷ bs) = distribute vals b.present b.packed >>= λ vals'. collect vals' bs

  pub reduce : Rewards F → List Bool → Result (Rewards F)
  reduce [] [] = ok []
  reduce [] (true ∷ ps) = panic
  reduce [] (false ∷ ps) = reduce [] ps
  reduce (seq ∷ r) [] = reduce r [] >>= λ rest. ok ([] ∷ rest)
  reduce (seq ∷ r) (true ∷ ps) = reduce r ps >>= λ rest. ok (seq ∷ rest)
  reduce (seq ∷ r) (false ∷ ps) = reduce r ps >>= λ rest. ok ([] ∷ rest)

module _ {F : Type 0} ⦃fl : Float F⦄ where
  open fl use {of_ℕ, plus, minus, times, over}

  -- `for _, x := range seq { sum += x }`
  abbrev pub sum_from : F → List F → F
  sum_from sum [] = sum
  sum_from sum (x ∷ seq) = sum_from (plus sum x) seq

  unfoldable pub totals : Rewards F → List F
  totals r = map (sum_from (of_ℕ 0)) r

  pub mean : Rewards F → F
  mean r = over (sum_from (of_ℕ 0) (totals r)) (of_ℕ (length r))

  square_sum_from : F → List F → F
  square_sum_from sum [] = sum
  square_sum_from sum (x ∷ xs) = square_sum_from (plus sum (times x x)) xs

  pub variance : Rewards F → F
  variance r =
      let n = of_ℕ (length r) in
      let m = over (sum_from (of_ℕ 0) (totals r)) n in
      let second_moment = over (square_sum_from (of_ℕ 0) (totals r)) n in
      minus second_moment (times m m)
