-- ===== src/Noise/Tests.antt =====
-- anyes/noise.go with a generator that counts.
use trpo.Prelude.{ℕ, ◌+◌, ◌≡◌, refl, List, [], ◌∷◌, none, some, length, arith}
use trpo.Prelude.Int.{ℤ, pos, int_float}
use trpo.Prelude.Failure.{ok, panic}
use trpo.Noise.{RandApi, Noise, log2, digits_from, new_noise, gen, gen_sum}
use trpo.Noise.Group.{
  fresh_group, Request, returns, group_init, group_sum, group_sums, noise_sum, cached,
}
use trpo.Noise.Indices.{gen_sum_total, length_one_hangs}
use trpo.Noise.Cache.{ComparesExactly, AllServed, group_sums_lem}

abbrev counter : RandApi ℤ ℕ
counter = record {
  new_source = λ seed. seed;
  int63 = λ s. (s, s + 1);
  norm_float64 = λ s. (pos s, s + 1);
}

-- The values 10 to 13.
abbrev four : Noise ℤ
four = record { seed = 10; data_of = pos 10 ∷ pos 11 ∷ pos 12 ∷ pos 13 ∷ []; len_log = 2 }

abbrev one_value : Noise ℤ
one_value = record { seed = 10; data_of = pos 10 ∷ []; len_log = 0 }

made_four : new_noise counter 10 4 ≡ ok four
unfolding new_noise
made_four = refl

made_one : new_noise counter 10 1 ≡ ok one_value
unfolding new_noise
made_one = refl

no_power : log2 12 ≡ panic
unfolding log2
no_power = refl

-- 27 has the digits 3, 2, 1 to the base 4.
summed :
    gen_sum counter four (pos 1 ∷ pos 2 ∷ []) (27 ∷ 1 ∷ []) 3
    ≡ some (ok (pos 35 ∷ pos 32 ∷ pos 31 ∷ []))
unfolding gen_sum
summed = refl

uneven : gen_sum counter four (pos 1 ∷ []) [] 3 ≡ some panic
unfolding gen_sum
uneven = refl

gen_sum_total_example :
    (xs : List ℤ) × (gen_sum counter four (pos 1 ∷ pos 2 ∷ []) (27 ∷ 1 ∷ []) 3 ≡ some (ok xs))
    × (length xs ≡ 3)
gen_sum_total_example =
    gen_sum_total counter 10 4 four (pos 1 ∷ pos 2 ∷ []) (27 ∷ 1 ∷ []) 3 made_four (omega arith)
      refl

length_one_hangs_example :
    (digits_from 500 0 63 9 ≡ none) × (gen counter one_value (pos 1) 27 3 ≡ none)
length_one_hangs_example =
    length_one_hangs counter 10 one_value (pos 1) 27 3 500 9 made_one (omega arith)

int_exact : ComparesExactly int_float
int_exact = record { eq_of_same = λ a b h. ground arith }

abbrev ask : Request ℤ
ask = record { scales = some (pos 1 ∷ []); seeds = some (27 ∷ []); amount = 3 }

-- The second answer comes from the cache.
group_sums_lem_example :
    ((group_init counter 10 4 fresh_group).0 ≡ ok tt)
    × AllServed counter four
        (ask ∷ ask ∷ [])
        (group_sums counter (group_init counter 10 4 fresh_group).1 (ask ∷ ask ∷ []))
group_sums_lem_example =
    group_sums_lem counter four int_exact 10 4 (ask ∷ ask ∷ []) made_four (omega arith) (
      record { even = refl; some_params = omega arith },
      (record { even = refl; some_params = omega arith }, tt),
    )

cached_answers :
    group_sums counter (record fresh_group { noise = some four }) (ask ∷ ask ∷ [])
    ≡ returns (pos 13 ∷ pos 12 ∷ pos 11 ∷ []) ∷ returns (pos 13 ∷ pos 12 ∷ pos 11 ∷ []) ∷ []
unfolding group_sums group_sum noise_sum cached gen_sum
cached_answers = refl
