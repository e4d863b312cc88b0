-- ===== src/ActionSpace/Densities.antt =====
-- The distributions of action_space.go: `Softmax`, `Bernoulli`, `Gaussian` and `Tuple`, by the values of their
-- expressions; `Pool` does not change a value. A sum, difference, product or quotient of two vectors panics
-- if their lengths differ. What else anydiff and anyvec compute is a parameter, and so are random draws.
use trpo.Prelude.{
  ℕ, zero, suc, ◌+◌, ◌*◌, ◌/◌, ◌%◌, List, [], ◌∷◌, ◌++◌, map, Bool, not, ◌||◌, Option, none, some,
  length, ◌==◌, if◌then◌else◌,
}
use trpo.Prelude.Float.{Float}
use trpo.Prelude.Failure.{Result, ok, panic, ◌>>=◌}
use trpo.ActionSpace.{slice, sample_probabilities, unpack_tuples}

-- `LogSoftmax` by chunks, `SumCols` and `Transpose` of a matrix with a number of rows and of columns, which
-- can panic on a vector of a wrong length, and functions of numbers; `square` is `Square`, and `Pow` with 2.
pub record DiffApi (F : Type 0) : Type 0 where
  pub log_softmax : ℕ → List F → Result (List F)
  pub sum_cols : ℕ → ℕ → List F → Result (List F)
  pub transpose : ℕ → ℕ → List F → Result (List F)
  pub exp : F → F
  pub sigmoid : F → F
  pub log_sigmoid : F → F
  pub square : F → F
  pub log_two_pi : F

abbrev pub zip_with {ℓ} : {A B C : Type ℓ} → (A → B → C) → List A → List B → List C
zip_with f [] ys = []
zip_with f (x ∷ xs) [] = []
zip_with f (x ∷ xs) (y ∷ ys) = f x y ∷ zip_with f xs ys

-- An operation on the entries of two vectors of one length.
abbrev pub entrywise {ℓ} : {A : Type ℓ} → (A → A → A) → List A → List A → Result (List A)
entrywise f xs ys = if length xs == length ys then ok (zip_with f xs ys) else panic

module _ {F : Type 0} ⦃fl : Float F⦄ where
  open fl use {of_ℕ, plus, minus, times, over, below}

  abbrev pub add : List F → List F → Result (List F)
  add xs ys = entrywise plus xs ys

  abbrev pub sub : List F → List F → Result (List F)
  sub xs ys = entrywise minus xs ys

  abbrev pub mul : List F → List F → Result (List F)
  mul xs ys = entrywise times xs ys

  abbrev pub div : List F → List F → Result (List F)
  div xs ys = entrywise over xs ys

  abbrev pub scale : List F → F → List F
  scale xs a = map (λ x. times x a) xs

  -- `MakeNumeric(-1)`, `MakeNumeric(0.5)` and `MakeNumeric(-0.5)`
  abbrev pub minus_one : F
  minus_one = minus (of_ℕ 0) (of_ℕ 1)

  abbrev pub half : F
  half = over (of_ℕ 1) (of_ℕ 2)

  abbrev pub minus_half : F
  minus_half = minus (of_ℕ 0) half

  -- The loop of `Softmax.Sample` from row `i`, with the draw for each row.
  unfoldable pub sample_rows : (ℕ → F) → ℕ → ℕ → ℕ → List F → Result (List F)
  sample_rows draws size i zero probs = ok []
  sample_rows draws size i (suc left) probs =
      sample_probabilities (draws i) (slice probs (i * size) ((i + 1) * size)) >>= λ one_hot.
      sample_rows draws size (i + 1) left probs >>= λ rest. ok (one_hot ++ rest)

module _ {F : Type 0} ⦃fl : Float F⦄ (api : DiffApi F) where
  open fl use {of_ℕ, plus, minus, times, over, below}
  open api use {log_softmax, sum_cols, transpose, exp, sigmoid, log_sigmoid, square, log_two_pi}

  unfoldable pub batched_dot : List F → List F → ℕ → Result (List F)
  batched_dot vecs1 vecs2 batch = mul vecs1 vecs2 >>= λ products.
      if batch == 0 then panic else sum_cols batch (length vecs1 / batch) products

  -- `Softmax`: a batch of size 0 divides by zero.
  unfoldable pub softmax_sample : (ℕ → F) → List F → ℕ → Result (List F)
  unfolding sample_rows
  softmax_sample draws params batch =
      if (batch == 0) || not (length params % batch == 0)
      then panic
      else (let size = length params / batch in
          log_softmax size params >>= λ logs. sample_rows draws size 0 batch (map exp logs))

  unfoldable pub softmax_log_prob : List F → List F → ℕ → Result (List F)
  unfolding batched_dot
  softmax_log_prob params output batch =
      if not (length params == length output) || (batch == 0) || not (length params % batch == 0)
      then panic
      else (log_softmax (length params / batch) params >>= λ logs. batched_dot logs output batch)

  unfoldable pub softmax_kl : List F → List F → ℕ → Result (List F)
  unfolding batched_dot
  softmax_kl params1 params2 batch =
      if not (length params1 == length params2) || (batch == 0) || not (length params1 % batch == 0)
      then panic
      else (log_softmax (length params1 / batch) params1 >>= λ log1.
          log_softmax (length params1 / batch) params2 >>= λ log2.
          sub log1 log2 >>= λ diff. batched_dot (map exp log1) diff batch)

  unfoldable pub softmax_entropy : List F → ℕ → Result (List F)
  unfolding batched_dot
  softmax_entropy params batch =
      if batch == 0
      then panic
      else (log_softmax (length params / batch) params >>= λ logs.
          batched_dot (map exp logs) logs batch >>= λ dots. ok (scale dots minus_one))

  -- `sideBySide` and `pairWithComplement`
  unfoldable pub side_by_side : List F → List F → Result (List F)
  side_by_side v1 v2 = transpose 2 (length v1) (v1 ++ v2)

  unfoldable pub pair_with_complement : List F → Result (List F)
  unfolding side_by_side
  pair_with_complement v = side_by_side (map (λ x. minus (of_ℕ 1) x) v) v

  -- `offOnProbs`
  unfoldable pub off_on_probs : List F → Result (List F)
  unfolding side_by_side
  off_on_probs params =
      side_by_side (map log_sigmoid (scale params minus_one)) (map log_sigmoid params)

  -- `Bernoulli`, with its field `OneHot` and the numbers that `Sample` draws
  unfoldable pub bernoulli_sample : Bool → List F → List F → Result (List F)
  unfolding pair_with_complement
  bernoulli_sample one_hot cutoffs params = sub (map sigmoid params) cutoffs >>= λ diff.
      let probs = map (λ x. if below (of_ℕ 0) x then of_ℕ 1 else of_ℕ 0) diff in
      if one_hot then pair_with_complement probs else ok probs

  unfoldable pub bernoulli_log_prob : Bool → List F → List F → ℕ → Result (List F)
  unfolding batched_dot off_on_probs pair_with_complement
  bernoulli_log_prob one_hot params output batch = off_on_probs params >>= λ off_on.
      (if one_hot then ok output else pair_with_complement output) >>= λ mask.
      batched_dot off_on mask batch

  unfoldable pub bernoulli_kl : List F → List F → ℕ → Result (List F)
  unfolding batched_dot off_on_probs
  bernoulli_kl params1 params2 batch = off_on_probs params1 >>= λ off_on1.
      off_on_probs params2 >>= λ off_on2.
      sub off_on1 off_on2 >>= λ diff. batched_dot (map exp off_on1) diff batch

  unfoldable pub bernoulli_entropy : List F → ℕ → Result (List F)
  unfolding batched_dot off_on_probs
  bernoulli_entropy params batch = off_on_probs params >>= λ logs.
      batched_dot (map exp logs) logs batch >>= λ dots. ok (scale dots minus_one)

  -- `SumCols` with the columns of a batch
  abbrev pub sum_batch : List F → ℕ → ℕ → Result (List F)
  sum_batch xs len batch = if batch == 0 then panic else sum_cols batch (len / batch) xs

  -- `splitParams`
  unfoldable pub split_params : List F → Result (List F × List F)
  split_params params =
      let n = length params / 2 in
      transpose n 2 params >>= λ tr. ok (slice tr 0 n, slice tr n (n * 2))

  -- `Gaussian`, with the noise that `Sample` draws
  unfoldable pub gaussian_sample : List F → List F → Result (List F)
  gaussian_sample noise params = transpose (length params / 2) 2 params >>= λ tr.
      let mean = slice tr 0 (length tr / 2) in
      let stddev = map exp (scale (slice tr (length tr / 2) (length tr)) half) in
      mul noise stddev >>= λ scaled. add scaled mean

  unfoldable pub gaussian_log_prob : List F → List F → ℕ → Result (List F)
  unfolding split_params
  gaussian_log_prob params output batch = split_params params >>= λ split.
      let mean = split.0 in
      let log_variance = split.1 in
      sub mean output >>= λ diffs. div (map square diffs) (map exp log_variance) >>= λ normalized.
      let log_norm = scale (map (λ x. plus x log_two_pi) log_variance) minus_half in
      add log_norm (scale normalized minus_half) >>= λ terms. sum_batch terms (length mean) batch

  -- The terms of `Gaussian.KL`, of two means and of the logarithms of two variances.
  unfoldable pub gaussian_terms : List F → List F → List F → List F → Result (List F)
  gaussian_terms mean1 log_var1 mean2 log_var2 =
      let var2 = map exp log_var2 in
      sub mean1 mean2 >>= λ diff. sub (map exp log_var1) var2 >>= λ spread.
      add (map square diff) spread >>= λ distance. div distance (scale var2 (of_ℕ 2)) >>= λ ratio.
      sub log_var2 log_var1 >>= λ logs. add ratio (scale logs half)

  unfoldable pub gaussian_kl : List F → List F → ℕ → Result (List F)
  unfolding split_params gaussian_terms
  gaussian_kl params1 params2 batch = split_params params1 >>= λ split1.
      split_params params2 >>= λ split2.
      gaussian_terms split1.0 split1.1 split2.0 split2.1 >>= λ terms.
      sum_batch terms (length split1.0) batch

  unfoldable pub gaussian_entropy : List F → ℕ → Result (List F)
  unfolding split_params
  gaussian_entropy params batch = split_params params >>= λ split.
      let log_variance = split.1 in
      let constant = times half (plus (of_ℕ 1) log_two_pi) in
      sum_batch (map (λ x. plus x constant) (scale log_variance half)) (length log_variance) batch

module _ {F : Type 0} ⦃fl : Float F⦄ where
  -- `if total == nil { total = x } else { total = anydiff.Add(total, x) }`
  abbrev pub add_to_total : Option (List F) → List F → Result (List F)
  add_to_total none x = ok x
  add_to_total (some total) x = add total x

  -- The loop of `Tuple.LogProb` and of `Tuple.KL`, over two lists of vectors for the spaces; `nil` if there
  -- is none.
  unfoldable pub total_pairs :
      List (List F → List F → ℕ → Result (List F))
      → List (List F)
      → List (List F)
      → ℕ
      → Option (List F)
      → Result (Option (List F))
  total_pairs spaces xs [] batch total = ok total
  total_pairs spaces [] (y ∷ ys) batch total = panic
  total_pairs [] (x ∷ xs) (y ∷ ys) batch total = panic
  total_pairs (space ∷ spaces) (x ∷ xs) (y ∷ ys) batch total = space x y batch >>= λ value.
      add_to_total total value >>= λ total'. total_pairs spaces xs ys batch (some total')

  -- The loop of `Tuple.Entropy`.
  unfoldable pub total_each :
      List (List F → ℕ → Result (List F))
      → List (List F)
      → ℕ
      → Option (List F)
      → Result (Option (List F))
  total_each spaces [] batch total = ok total
  total_each [] (x ∷ xs) batch total = panic
  total_each (space ∷ spaces) (x ∷ xs) batch total = space x batch >>= λ value.
      add_to_total total value >>= λ total'. total_each spaces xs batch (some total')

  unfoldable pub tuple_log_prob :
      List (List F → List F → ℕ → Result (List F))
      → List ℕ
      → List ℕ
      → List F
      → List F
      → ℕ
      → Result (Option (List F))
  unfolding total_pairs
  tuple_log_prob spaces param_sizes sample_sizes params output batch =
      unpack_tuples params param_sizes batch >>= λ unpacked_params.
      unpack_tuples output sample_sizes batch >>= λ unpacked_samples.
      total_pairs spaces unpacked_params unpacked_samples batch none

  unfoldable pub tuple_kl :
      List (List F → List F → ℕ → Result (List F))
      → List ℕ
      → List F
      → List F
      → ℕ
      → Result (Option (List F))
  unfolding total_pairs
  tuple_kl spaces param_sizes params1 params2 batch =
      unpack_tuples params1 param_sizes batch >>= λ unpacked1.
      unpack_tuples params2 param_sizes batch >>= λ unpacked2.
      total_pairs spaces unpacked1 unpacked2 batch none

  unfoldable pub tuple_entropy :
      List (List F → ℕ → Result (List F)) → List ℕ → List F → ℕ → Result (Option (List F))
  unfolding total_each
  tuple_entropy spaces param_sizes params batch =
      unpack_tuples params param_sizes batch >>= λ unpacked. total_each spaces unpacked batch none
