-- ===== src/Noise.antt =====
-- anyes/noise.go: deterministic noise. Seeds are the bit patterns of int64 values. The generator of
-- math/rand is a parameter; a loop that runs out of fuel gives `none`.
pub mod Log2
pub mod Indices
pub mod Group
pub mod Cache
mod Tests
use trpo.Prelude.{
  ℕ, zero, suc, ◌+◌, ◌-◌, ◌/◌, ◌%◌, ◌^◌, List, [], ◌∷◌, ◌++◌, Bool, true, false, not, ◌&&◌, Option,
  none, some, length, get_elem?, take, replicate, ltb, leb, ◌==◌, if◌then◌else◌,
}
use trpo.Prelude.Float.{Float}
use trpo.Prelude.Failure.{Error, text, Result, ok, err, panic, ◌>>=◌}

-- The methods of math/rand that are used, over the states `R` of a source.
pub record RandApi (F R : Type 0) : Type 0 where
  pub new_source : ℕ → R
  pub int63 : R → ℕ × R
  pub norm_float64 : R → F × R

-- `for i := uint(0); i < 64; i++`, with the rounds that are left
pub log2_from : ℕ → ℕ → ℕ → Result ℕ
log2_from zero i n = panic
log2_from (suc left) i n =
    let rest = log2_from left (i + 1) n in
    if 2 ^ i == n then ok i else (if ltb n (2 ^ i) then panic else rest)

-- `n` is the value of `uint64(n)`.
unfoldable pub log2 : ℕ → Result ℕ
unfolding log2_from
log2 n = log2_from 64 0 n

pub record Noise (F : Type 0) : Type 0 where
  pub seed : ℕ
  pub data_of : List F
  pub len_log : ℕ

-- The inner loop of `randomIndices`: `next & mask` is the remainder by a power of two, and the shift
-- is the quotient.
pub digits_from : ℕ → ℕ → ℕ → ℕ → Option (List ℕ)
digits_from zero len_log remaining next = none
digits_from (suc fuel) len_log remaining next =
    let rest = digits_from fuel len_log (remaining - len_log) (next / 2 ^ len_log) in
    if leb len_log remaining
    then elim rest [ none ↦ none | some res ↦ some ((next % 2 ^ len_log) ∷ res) ]
    else some []

module _ {F R : Type 0} (api : RandApi F R) where
  -- The outer loop, `for len(res) < size`.
  pub indices_from : ℕ → ℕ → ℕ → R → List ℕ → Option (List ℕ)
  indices_from zero len_log size source res = none
  indices_from (suc fuel) len_log size source res =
      let (next, source') = api.int63 source in
      let more = digits_from 64 len_log 63 next in
      elim (ltb (length res) size) [
        | true ↦ elim more [
          | none ↦ none
          | some ds ↦ indices_from fuel len_log size source' (res ++ ds)
        ]
        | false ↦ some res
      ]

  -- `randomIndices`: one round for each index, and one that ends the loop, are enough.
  unfoldable pub random_indices : ℕ → R → ℕ → Option (List ℕ)
  unfolding indices_from digits_from
  random_indices len_log source size = elim (indices_from (suc size) len_log size source []) [
    | none ↦ none
    | some res ↦ some (take size res)
  ]

  -- `for i := 0; i < length; i++ { data = append(data, gen.NormFloat64()) }`
  pub normals : ℕ → R → List F
  normals zero gen = []
  normals (suc left) gen = let (x, gen') = api.norm_float64 gen in x ∷ normals left gen'

  unfoldable pub new_noise : ℕ → ℕ → Result (Noise F)
  unfolding normals log2
  new_noise seed len =
      let data' = normals len (api.new_source seed) in
      log2 len >>= λ l. ok (record { seed = seed; data_of = data'; len_log = l })

module _ {F R : Type 0} ⦃fl : Float F⦄ (api : RandApi F R) where
  open fl use {of_ℕ, plus, times, differs}

  -- `res[i] = scale * n.data[sourceIdx]`
  pub scaled : F → List F → List ℕ → Result (List F)
  scaled scale values [] = ok []
  scaled scale values (i ∷ is) = elim (get_elem? values i) [
    | none ↦ panic
    | some x ↦ scaled scale values is >>= λ rest. ok (times scale x ∷ rest)
  ]

  unfoldable pub gen : Noise F → F → ℕ → ℕ → Option (Result (List F))
  unfolding scaled random_indices
  gen n scale seed amount = elim (random_indices api n.len_log (api.new_source seed) amount) [
    | none ↦ none
    | some is ↦ some (scaled scale n.data_of is)
  ]

  -- `res[i] += x`
  add_to : List F → List F → Result (List F)
  add_to res [] = ok res
  add_to [] (x ∷ xs) = panic
  add_to (r ∷ res) (x ∷ xs) = add_to res xs >>= λ rest. ok (plus r x ∷ rest)

  pub sum_noise : Noise F → ℕ → List F → List ℕ → List F → Option (Result (List F))
  sum_noise n amount [] seeds res = some (ok res)
  sum_noise n amount (scale ∷ scales) [] res = some panic
  sum_noise n amount (scale ∷ scales) (seed ∷ seeds) res = elim (gen n scale seed amount) [
    | none ↦ none
    | some panic ↦ some panic
    | some (err e) ↦ some (err e)
    | some (ok xs) ↦ elim (add_to res xs) [
      | panic ↦ some panic
      | err e ↦ some (err e)
      | ok res' ↦ sum_noise n amount scales seeds res'
    ]
  ]

  unfoldable pub gen_sum : Noise F → List F → List ℕ → ℕ → Option (Result (List F))
  unfolding sum_noise add_to gen
  gen_sum n scales seeds amount =
      if length scales == length seeds
      then sum_noise n amount scales seeds (replicate amount (of_ℕ 0))
      else some panic
