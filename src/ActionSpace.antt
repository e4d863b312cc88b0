-- ===== src/ActionSpace.antt =====
-- action_space.go: samples of a categorical distribution, and tuples of action spaces, whose batches of
-- vectors are packed into one. Vectors are lists; `Slice` and `Concat` of the vector library are those of
-- lists, and a draw of `rand.Float64` is an argument.
pub mod Packing
pub mod OneHot
pub mod Sized
pub mod Zeros
pub mod SelfDivergence
pub mod Densities
mod KlTests
mod Tests
use trpo.Prelude.{
  ℕ, zero, suc, ◌+◌, ◌-◌, ◌*◌, ◌/◌, List, [], ◌∷◌, ◌++◌, map, Option, none, some, length, take,
  drop, set, replicate, concat, ◌==◌, ltb, if◌then◌else◌,
}
use trpo.Prelude.Float.{Float}
use trpo.Prelude.Failure.{Result, ok, err, panic, ◌>>=◌}

abbrev pub slice {ℓ} : {A : Type ℓ} → List A → ℕ → ℕ → List A
slice xs from to = take (to - from) (drop from xs)

-- `totalSize`
abbrev pub sum_sizes : List ℕ → ℕ
sum_sizes [] = 0
sum_sizes (n ∷ ns) = n + sum_sizes ns

module _ {A : Type 0} where
  -- The inner loop of `unpackTuples`, one vector of each space, which are joined to those before; and
  -- the offset.
  pub unpack_row : List ℕ → ℕ → List A → List (List A) → List (List A) × ℕ
  unpack_row [] offset xs unjoined = (unjoined, offset)
  unpack_row (n ∷ ns) offset xs [] = ([], offset)
  unpack_row (n ∷ ns) offset xs (u ∷ us) =
      let (us', end) = unpack_row ns (offset + n) xs us in
      ((u ++ slice xs offset (offset + n)) ∷ us', end)

  pub unpack_rows : ℕ → List ℕ → ℕ → List A → List (List A) → List (List A)
  unfolding unpack_row
  unpack_rows zero sizes offset xs unjoined = unjoined
  unpack_rows (suc left) sizes offset xs unjoined =
      let (unjoined', offset') = unpack_row sizes offset xs unjoined in
      unpack_rows left sizes offset' xs unjoined'

  unfoldable pub unpack_tuples : List A → List ℕ → ℕ → Result (List (List A))
  unfolding unpack_rows
  unpack_tuples params sizes batch =
      if length params == sum_sizes sizes * batch
      then ok (unpack_rows batch sizes 0 params (replicate (length sizes) []))
      else panic

  -- `packed.Slice(i*chunkSize, (i+1)*chunkSize)`
  pub chunk : ℕ → ℕ → List A → List A
  chunk batch i packed =
      let size = length packed / batch in slice packed (i * size) ((i + 1) * size)

  -- The rows of `packTuples` from `i`, joined.
  pub pack_rows : ℕ → ℕ → ℕ → List (List A) → List A
  unfolding chunk
  pack_rows batch i zero each = []
  pack_rows batch i (suc left) each =
      concat (map (chunk batch i) each) ++ pack_rows batch (i + 1) left each

  unfoldable pub pack_tuples : List (List A) → ℕ → Result (List A)
  unfolding pack_rows
  pack_tuples [] batch = panic
  pack_tuples (p ∷ ps) batch = if batch == 0 then ok [] else ok (pack_rows batch 0 batch (p ∷ ps))

  -- The loop of `Tuple.Sample`; `t.Spaces[i]` panics past the end.
  pub sample_each : List (List A → ℕ → List A) → List (List A) → ℕ → Result (List (List A))
  sample_each spaces [] batch = ok []
  sample_each [] (p ∷ ps) batch = panic
  sample_each (sampler ∷ spaces) (p ∷ ps) batch =
      sample_each spaces ps batch >>= λ rest. ok (sampler p batch ∷ rest)

  -- `Tuple.Sample`
  unfoldable pub tuple_sample : List (List A → ℕ → List A) → List ℕ → List A → ℕ → Result (List A)
  unfolding sample_each unpack_tuples pack_tuples
  tuple_sample spaces param_sizes params batch =
      unpack_tuples params param_sizes batch >>= λ unpacked.
      sample_each spaces unpacked batch >>= λ sampled. pack_tuples sampled batch

module _ {F : Type 0} ⦃fl : Float F⦄ where
  open fl use {of_ℕ, minus, below}

  -- The loop of `sampleProbabilities`: the index that the draw falls on, or the one that is given.
  pub pick : ℕ → F → ℕ → List F → ℕ
  pick default draw i [] = default
  pick default draw i (x ∷ p) =
      let rest = pick default (minus draw x) (i + 1) p in
      if below (minus draw x) (of_ℕ 0) then i else rest

  unfoldable pub sample_probabilities : F → List F → Result (List F)
  unfolding pick
  sample_probabilities draw p =
      if length p == 0
      then panic
      else ok (set (replicate (length p) (of_ℕ 0)) (pick (length p - 1) draw 0 p) (of_ℕ 1))
