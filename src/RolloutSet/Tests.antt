-- ===== src/RolloutSet/Tests.antt =====
-- rollout_set.go and reduce.go on small sets; a tape is the list of its batches.
use trpo.Prelude.{ℕ, ◌≡◌, refl, List, [], ◌∷◌, ◌++◌, Bool, Option, none, some, length, arith}
use trpo.Prelude.Int.{ℤ, pos, int_float}
use trpo.Prelude.Failure.{ok}
use trpo.Rewards.{Batch}
use trpo.Rewards.Reduce.{count_true, kept}
use trpo.RolloutSet.{RolloutSet, Tapes, FracReducer, frac_reduce}
use trpo.RolloutSet.Reducer.{IsPerm, frac_reduce_selects}

abbrev Tape : Type 0
Tape = List (Batch ℤ)

abbrev join : List (Option Tape) → Tape
join [] = []
join (none ∷ ts) = join ts
join (some t ∷ ts) = t ++ join ts

-- Tapes that are never thinned out, which suffices here.
abbrev whole : Tapes Tape ℤ
whole = record { reduce_tape = λ t present. join (t ∷ []); read_tape = λ t. t }

abbrev two : RolloutSet Tape ℤ
two = record {
  inputs = some [];
  actions = some [];
  rewards = (pos 1 ∷ pos 2 ∷ []) ∷ (pos 4 ∷ []) ∷ [];
  agent_outs = none;
}

abbrev half : FracReducer Tape ℤ
half = record {
  frac = pos 1;
  make_input_tape = none;
  make_action_tape = none;
  make_agent_out_tape = none;
}

abbrev backwards : ℕ → List ℕ
backwards n = 1 ∷ 0 ∷ []

backwards-IsPerm : IsPerm 2 (backwards 2)
backwards-IsPerm = record {
  count = refl;
  bound = omega arith;
  distinct = ((omega arith, tt), (tt, tt));
}

frac_reduce_selects_example :
    (present : List Bool) × (res : RolloutSet Tape ℤ) × (frac_reduce whole backwards half two
      ≡ ok res)
    × (length present ≡ 2)
    × (count_true present ≡ 2)
    × (res.rewards ≡ kept two.rewards present)
frac_reduce_selects_example =
    frac_reduce_selects whole backwards half two (omega arith) backwards-IsPerm
