-- ===== src/ActionSpace/Tests.antt =====
-- Samples and tuples of small action spaces.
use trpo.Prelude.{ℕ, ◌≡◌, refl, List, [], ◌∷◌, ◌++◌, arith, length, replicate}
use trpo.Prelude.Int.{ℤ, pos, int_float}
use trpo.Prelude.Failure.{ok, panic}
use trpo.ActionSpace.{unpack_tuples, pack_tuples, tuple_sample, sample_probabilities}
use trpo.ActionSpace.Packing.{unpack_tuples-pack_tuples}
use trpo.ActionSpace.OneHot.{FallsOn, sample_probabilities-FallsOn}

unpack_test :
    unpack_tuples {A = ℕ} (1 ∷ 2 ∷ 3 ∷ 4 ∷ 5 ∷ 6 ∷ []) (2 ∷ 1 ∷ []) 2
    ≡ ok ((1 ∷ 2 ∷ 4 ∷ 5 ∷ []) ∷ (3 ∷ 6 ∷ []) ∷ [])
unfolding unpack_tuples
unpack_test = refl

pack_test :
    pack_tuples {A = ℕ} ((1 ∷ 2 ∷ 4 ∷ 5 ∷ []) ∷ (3 ∷ 6 ∷ []) ∷ []) 2
    ≡ ok (1 ∷ 2 ∷ 3 ∷ 4 ∷ 5 ∷ 6 ∷ [])
unfolding pack_tuples
pack_test = refl

too_short : unpack_tuples {A = ℕ} (1 ∷ 2 ∷ 3 ∷ []) (2 ∷ 1 ∷ []) 2 ≡ panic
unfolding unpack_tuples
too_short = refl

-- The first space gives one value for two parameters, the second one copies its own.
sample_test :
    tuple_sample {A = ℕ}
      ((λ ps batch. 8 ∷ 9 ∷ []) ∷ (λ ps batch. ps) ∷ [])
      (2 ∷ 1 ∷ [])
      (1 ∷ 2 ∷ 3 ∷ 4 ∷ 5 ∷ 6 ∷ [])
      2
    ≡ ok (8 ∷ 3 ∷ 9 ∷ 6 ∷ [])
unfolding tuple_sample
sample_test = refl

draw_test :
    sample_probabilities (pos 5) (pos 3 ∷ pos 4 ∷ pos 2 ∷ []) ≡ ok (pos 0 ∷ pos 1 ∷ pos 0 ∷ [])
unfolding sample_probabilities
draw_test = refl

unpack_tuples-pack_tuples_example :
    (xs : List ℕ) × (pack_tuples ((1 ∷ 2 ∷ 4 ∷ 5 ∷ []) ∷ (3 ∷ 6 ∷ []) ∷ []) 2 ≡ ok xs)
    × (unpack_tuples xs (2 ∷ 1 ∷ []) 2 ≡ ok ((1 ∷ 2 ∷ 4 ∷ 5 ∷ []) ∷ (3 ∷ 6 ∷ []) ∷ []))
unpack_tuples-pack_tuples_example =
    unpack_tuples-pack_tuples 2 (2 ∷ 1 ∷ []) (1 ∷ 2 ∷ 4 ∷ 5 ∷ []) ((3 ∷ 6 ∷ []) ∷ []) (omega arith)
      (refl, (refl, tt))

sample_probabilities-FallsOn_example :
    (before : List ℤ) × (x : ℤ) × (after : List ℤ) × (pos 3 ∷ pos 4 ∷ pos 2 ∷ []
      ≡ before ++ x ∷ after)
    × FallsOn (pos 5) before x after
    × (sample_probabilities (pos 5) (pos 3 ∷ pos 4 ∷ pos 2 ∷ [])
        ≡ ok (replicate (length before) (pos 0) ++ (pos 1 ∷ replicate (length after) (pos 0))))
sample_probabilities-FallsOn_example =
    sample_probabilities-FallsOn (pos 5) (pos 3) (pos 4 ∷ pos 2 ∷ [])
