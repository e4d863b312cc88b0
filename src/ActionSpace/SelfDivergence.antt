-- ===== src/ActionSpace/SelfDivergence.antt =====
-- `KL` of action_space.go for two times the same parameters.
use trpo.Prelude.{
  ℕ, zero, suc, ◌+◌, ◌*◌, ◌/◌, ◌%◌, ◌<◌, ◌≡◌, refl, ap, ap₂, sym, ◌∙◌, List, [], ◌∷◌, ◌++◌, map,
  true, false, not, ◌||◌, some, length, length-append, length-map, replicate, ◌==◌, eq→==, arith,
}
use native.Mathlib.Nat.{mul-mod_right}
use trpo.Prelude.Float.{Float}
use trpo.Prelude.Failure.{Result, ok}
use trpo.ActionSpace.{slice, sum_sizes, unpack_tuples}
use trpo.ActionSpace.Sized.{Sized, length-slice, unpack_tuples-Sized}
use trpo.ActionSpace.Zeros.{
  zero_of, AllZero, Exact, zip_self, scale-zeros, plus-zeros, square-zeros, over-zeros,
  sum_batch_zeros, dot_self, length-zip_with, entrywise_ok, cols_of,
}
use trpo.ActionSpace.Densities.{
  DiffApi, zip_with, add, scale, half, side_by_side, off_on_probs, split_params, gaussian_terms,
  softmax_kl, bernoulli_kl, gaussian_kl, total_pairs, tuple_kl,
}

-- The action spaces with a divergence.
pub data Space : Type 0 where
  softmax bernoulli gaussian : Space

-- A Gaussian has a mean and a variance for each of its numbers.
unfoldable pub Fits : Space → ℕ → Type 0
Fits softmax n = Unit
Fits bernoulli n = Unit
Fits gaussian n = (k : ℕ) × (n ≡ k * 2)

unfoldable pub AllFit : List Space → List ℕ → Type 0
AllFit [] [] = Unit
AllFit [] (n ∷ ns) = ⊥
AllFit (space ∷ spaces) [] = ⊥
AllFit (space ∷ spaces) (n ∷ ns) = Fits space n × AllFit spaces ns

length_pairs : (len batch n k : ℕ) → len ≡ batch * n → n ≡ k * 2 → len ≡ batch * k * 2
length_pairs len batch n k h even = grind arith

module _ {F : Type 0} ⦃fl : Float F⦄ (api : DiffApi F) (laws : Exact api) where
  off_on_ok :
      (xs : List F) → (ys : List F) × (off_on_probs api xs ≡ ok ys) × (length ys ≡ length xs * 2)
  unfolding off_on_probs side_by_side
  off_on_ok xs =
      let off = map api.log_sigmoid (scale xs (fl.minus (fl.of_ℕ 0) (fl.of_ℕ 1))) in
      let on = map api.log_sigmoid xs in
      let len_off : length off ≡ length xs = length-map _ (scale xs _) ∙ length-map _ xs in
      let len_on : length on ≡ length xs = length-map _ xs in
      let joined = length-append off on in
      let (ys, e, len) =
        laws.transpose_ok 2 (length off) (off ++ on) (omega (arith, joined, len_off, len_on)) in
      (ys, e, omega (arith, len, joined, len_off, len_on))

  split_params_ok :
      (xs : List F) (n : ℕ)
      → length xs ≡ n * 2
      → (mean : List F) × (log_var : List F) × (split_params api xs ≡ ok (mean, log_var))
        × (length mean ≡ n)
        × (length log_var ≡ n)
  unfolding split_params
  split_params_ok xs n h =
      let n' = length xs / 2 in
      let halved : n' ≡ n = omega (arith, h) in
      let (tr, e, len) = laws.transpose_ok n' 2 xs (omega (arith, h)) in
      let cut1 = length-slice tr 0 n' (omega (arith, len, h)) in
      let twice : n' + n' ≡ n' * 2 = omega arith in
      let from_zero : n' ≡ 0 + n' = omega arith in
      let cut2 = length-slice tr n' n' (omega (arith, len, h)) in
      (
        slice tr 0 n',
        slice tr n' (n' * 2),
        rw e refl,
        ap (λ to. length (slice tr 0 to)) from_zero ∙ cut1 ∙ halved,
        ap (λ to. length (slice tr n' to)) (sym twice) ∙ cut2 ∙ halved,
      )

  gaussian_terms_ok :
      (mean log_var : List F) (n : ℕ)
      → length mean ≡ n
      → length log_var ≡ n
      → (terms : List F) × (gaussian_terms api mean log_var mean log_var ≡ ok terms)
        × (length terms ≡ n)
        × AllZero terms
  unfolding gaussian_terms
  gaussian_terms_ok mean log_var n h k =
      let var = map api.exp log_var in
      let var2 = scale var (fl.of_ℕ 2) in
      let len_var : length var ≡ n = length-map _ log_var ∙ k in
      let len_var2 : length var2 ≡ n = length-map _ var ∙ len_var in
      let diff = zip_with fl.minus mean mean in
      let squares = map api.square diff in
      let len_squares : length squares ≡ n =
        length-map _ diff ∙ length-zip_with fl.minus n mean mean h h in
      let spread = zip_with fl.minus var var in
      let len_spread = length-zip_with fl.minus n var var len_var len_var in
      let distance = zip_with fl.plus squares spread in
      let len_distance = length-zip_with fl.plus n squares spread len_squares len_spread in
      let ratio = zip_with fl.over distance var2 in
      let len_ratio = length-zip_with fl.over n distance var2 len_distance len_var2 in
      let logs = zip_with fl.minus log_var log_var in
      let halves = scale logs half in
      let len_halves : length halves ≡ n =
        length-map _ logs ∙ length-zip_with fl.minus n log_var log_var k k in
      let ratio_zeros = over-zeros api laws distance log_var (
        plus-zeros api laws squares spread (square-zeros api laws diff (zip_self api laws mean))
          (zip_self api laws var)) in
      (
        zip_with fl.plus ratio halves,
        rw
            (
              entrywise_ok fl.minus n mean mean h h,
              entrywise_ok fl.minus n var var len_var len_var,
              entrywise_ok fl.plus n squares spread len_squares len_spread,
              entrywise_ok fl.over n distance var2 len_distance len_var2,
              entrywise_ok fl.minus n log_var log_var k k,
            )
            (entrywise_ok fl.plus n ratio halves len_ratio len_halves),
        length-zip_with fl.plus n ratio halves len_ratio len_halves,
        plus-zeros api laws ratio halves ratio_zeros
            (scale-zeros api laws logs half (zip_self api laws log_var)),
      )

  abbrev pub kl_of : Space → List F → List F → ℕ → Result (List F)
  kl_of softmax = softmax_kl api
  kl_of bernoulli = bernoulli_kl api
  kl_of gaussian = gaussian_kl api

  kl_self :
      (space : Space) (xs : List F) (batch n : ℕ)
      → 0 < batch
      → Fits space n
      → length xs ≡ batch * n
      → kl_of space xs xs batch ≡ ok (replicate batch zero_of)
  unfolding softmax_kl bernoulli_kl gaussian_kl Fits
  kl_self softmax xs batch n pos fits h =
      let same : (length xs == length xs) ≡ true = eq→== _ _ refl in
      let some_rows : (batch == 0) ≡ false = ground arith in
      let divides = eq→== (length xs % batch) 0 (ap (λ k. k % batch) h ∙ mul-mod_right batch n) in
      let cols : length xs / batch ≡ n = ap (λ l. l / batch) h ∙ cols_of batch n pos in
      let (logs, e, len) = laws.log_softmax_ok n batch xs h in
      let guard : (not (length xs == length xs) || (batch == 0) || not (length xs % batch == 0))
          ≡ false =
        rw (same, some_rows, divides) refl in
      rw (guard, cols, e) (dot_self api laws logs batch n pos (len ∙ h))
  kl_self bernoulli xs batch n pos fits h =
      let (logs, e, len) = off_on_ok xs in
      rw e (dot_self api laws logs batch (n * 2) pos (len ∙ grind (arith, h)))
  kl_self gaussian xs batch n pos (k, even) h =
      let half_len : length xs ≡ batch * k * 2 = length_pairs (length xs) batch n k h even in
      let (mean, log_var, e, len_mean, len_var) = split_params_ok xs (batch * k) half_len in
      let (terms, e', len, zeros) = gaussian_terms_ok mean log_var (batch * k) len_mean len_var in
      rw (e, e')
        (sum_batch_zeros api laws terms (length mean) batch k pos len_mean (len ∙ sym len_mean)
          zeros)

  add_replicate :
      (rows : ℕ)
      → add {F = F} (replicate rows zero_of) (replicate rows zero_of) ≡ ok (replicate rows zero_of)
  add_replicate rows = entrywise_ok fl.plus rows _ _ (len rows) (len rows) ∙ ap ok (sums rows)
    where
      len : (rows : ℕ) → length {A = F} (replicate rows zero_of) ≡ rows
      len zero = refl
      len (suc rows) = ap suc (len rows)

      sums :
          (rows : ℕ)
          → zip_with fl.plus (replicate rows zero_of) (replicate rows zero_of)
            ≡ replicate rows zero_of
      sums zero = refl
      sums (suc rows) = ap₂ ◌∷◌ laws.plus_zero (sums rows)

  -- The divergences of the spaces of a tuple for two times the same vectors add up to zeros.
  total_zeros :
      (spaces : List Space) (ns : List ℕ) (us : List (List F)) (batch : ℕ)
      → 0 < batch
      → AllFit spaces ns
      → Sized ns batch us
      → total_pairs (map kl_of spaces) us us batch (some (replicate batch zero_of))
        ≡ ok (some (replicate batch zero_of))
  unfolding total_pairs Sized AllFit
  total_zeros spaces [] [] batch pos fit s = refl
  total_zeros spaces [] (u ∷ us) batch pos fit s = absurd s
  total_zeros spaces (n ∷ ns) [] batch pos fit s = absurd s
  total_zeros [] (n ∷ ns) (u ∷ us) batch pos fit s = absurd fit
  total_zeros (space ∷ spaces) (n ∷ ns) (u ∷ us) batch pos (fits, fit) (len, s) =
      rw (kl_self space u batch n pos fits len, add_replicate batch)
        (total_zeros spaces ns us batch pos fit s)

  -- In exact arithmetic, for a tuple of at least one categorical, binary or Gaussian space, with an even
  -- number of parameters for each Gaussian: the divergence of a nonempty batch of distributions from itself
  -- is computed without a panic, and is zero for each entry of the batch.
  pub tuple_kl_self :
      (space : Space) (spaces : List Space) (n : ℕ) (ns : List ℕ) (params : List F) (batch : ℕ)
      → 0 < batch
      → AllFit (space ∷ spaces) (n ∷ ns)
      → length params ≡ sum_sizes (n ∷ ns) * batch
      → tuple_kl (map kl_of (space ∷ spaces)) (n ∷ ns) params params batch
        ≡ ok (some (replicate batch zero_of))
  unfolding tuple_kl total_pairs Sized AllFit
  tuple_kl_self space spaces n ns params batch pos (fits, fit) h =
      first (unpack_tuples-Sized (n ∷ ns) batch params h)
    where
      first :
          ((us : List (List F)) × (unpack_tuples params (n ∷ ns) batch ≡ ok us)
            × Sized (n ∷ ns) batch us)
          → tuple_kl (map kl_of (space ∷ spaces)) (n ∷ ns) params params batch
            ≡ ok (some (replicate batch zero_of))
      first ([], e, s) = absurd s
      first (u ∷ us, e, (len, s)) =
          rw (e, kl_self space u batch n pos fits len) (total_zeros spaces ns us batch pos fit s)
