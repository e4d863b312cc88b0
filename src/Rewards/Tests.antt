-- ===== src/Rewards/Tests.antt =====
-- rewards.go on three short episodes.
use trpo.Prelude.{◌≡◌, refl, List, [], ◌∷◌, true, false, some, replicate}
use trpo.Prelude.Int.{ℤ, pos, int_float}
use trpo.Prelude.Failure.{ok}
use trpo.Rewards.{Rewards, Batch, tape, collect, totals, square_sum_from, variance}
use trpo.Rewards.Tape.{collect-tape}

abbrev episodes : Rewards ℤ
episodes = (pos 1 ∷ pos 2 ∷ []) ∷ [] ∷ (pos 5 ∷ []) ∷ []

tape_of_episodes :
    tape episodes
    ≡ some (
        record { packed = pos 1 ∷ pos 5 ∷ []; present = true ∷ false ∷ true ∷ [] }
        ∷ record { packed = pos 2 ∷ []; present = true ∷ false ∷ false ∷ [] }
        ∷ [])
unfolding tape
tape_of_episodes = refl

totals_of_episodes : totals episodes ≡ pos 3 ∷ pos 0 ∷ pos 5 ∷ []
unfolding totals
totals_of_episodes = refl

variance_of_two : variance ((pos 1 ∷ []) ∷ (pos 3 ∷ []) ∷ []) ≡ pos 1
unfolding variance square_sum_from totals
variance_of_two = refl

collect-tape_example :
    (bs : List (Batch ℤ)) × (tape episodes ≡ some bs) × (collect (replicate 3 []) bs ≡ ok episodes)
collect-tape_example = collect-tape episodes
