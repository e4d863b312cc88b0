-- ===== src/ActionSpace/Zeros.antt =====
-- Vectors of zeros in the densities of action_space.go.
use trpo.Prelude.{
  ℕ, zero, suc, ◌*◌, ◌/◌, ◌<◌, ◌≡◌, refl, ap, sym, ◌∙◌, List, [], ◌∷◌, map, false, length,
  length-map, replicate, ◌==◌, eq→==, All, arith,
}
use native.Mathlib.Nat.{mul-div_cancel}
use trpo.Prelude.Float.{Float}
use trpo.Prelude.Failure.{ok, ◌>>=◌}
use trpo.ActionSpace.Densities.{DiffApi, zip_with, entrywise, sub, scale, batched_dot, sum_batch}

pub cols_of : (batch n : ℕ) → 0 < batch → batch * n / batch ≡ n
cols_of batch n pos =
    ap (λ k. k / batch) (let e : batch * n ≡ n * batch = grind arith in e) ∙ mul-div_cancel n pos

module _ {F : Type 0} ⦃fl : Float F⦄ where
  abbrev pub zero_of : F
  zero_of = fl.of_ℕ 0

  abbrev pub AllZero : List F → Type 0
  AllZero xs = All (λ x. x ≡ zero_of) xs

  pub length-zip_with :
      (f : F → F → F) (n : ℕ) (xs ys : List F)
      → length xs ≡ n
      → length ys ≡ n
      → length (zip_with f xs ys) ≡ n
  length-zip_with f n [] ys h k = h
  length-zip_with f n (x ∷ xs) [] h k = absurd (omega arith)
  length-zip_with f zero (x ∷ xs) (y ∷ ys) h k = absurd (omega arith)
  length-zip_with f (suc n) (x ∷ xs) (y ∷ ys) h k =
      ap suc (length-zip_with f n xs ys (omega arith) (omega arith))

  pub entrywise_ok :
      (f : F → F → F) (n : ℕ) (xs ys : List F)
      → length xs ≡ n
      → length ys ≡ n
      → entrywise f xs ys ≡ ok (zip_with f xs ys)
  entrywise_ok f n xs ys h k = let same = eq→== (length xs) (length ys) (h ∙ sym k) in rw same refl

module _ {F : Type 0} ⦃fl : Float F⦄ (api : DiffApi F) where
  -- Exact arithmetic about zero, the sums of rows of zeros, and vectors of the lengths that fit.
  pub record Exact : Type 0 where
    pub minus_self : (x : F) → fl.minus x x ≡ zero_of
    pub times_zero : (x : F) → fl.times x zero_of ≡ zero_of
    pub zero_times : (x : F) → fl.times zero_of x ≡ zero_of
    pub plus_zero : fl.plus zero_of zero_of ≡ zero_of
    pub square_zero : api.square zero_of ≡ zero_of
    pub zero_over : (x : F) → fl.over zero_of (fl.times (api.exp x) (fl.of_ℕ 2)) ≡ zero_of
    pub sum_zeros :
        (rows cols : ℕ) (xs : List F)
        → length xs ≡ rows * cols
        → AllZero xs
        → api.sum_cols rows cols xs ≡ ok (replicate rows zero_of)
    pub log_softmax_ok :
        (size rows : ℕ) (xs : List F)
        → length xs ≡ rows * size
        → (ys : List F) × (api.log_softmax size xs ≡ ok ys) × (length ys ≡ length xs)
    pub transpose_ok :
        (rows cols : ℕ) (xs : List F)
        → length xs ≡ rows * cols
        → (ys : List F) × (api.transpose rows cols xs ≡ ok ys) × (length ys ≡ length xs)

  module _ (laws : Exact) where
    pub zip_self : (xs : List F) → AllZero (zip_with fl.minus xs xs)
    zip_self [] = tt
    zip_self (x ∷ xs) = (laws.minus_self x, zip_self xs)

    times-zeros : (xs ys : List F) → AllZero ys → AllZero (zip_with fl.times xs ys)
    times-zeros [] ys h = tt
    times-zeros (x ∷ xs) [] h = tt
    times-zeros (x ∷ xs) (y ∷ ys) (e, h) = (rw (e, laws.times_zero), times-zeros xs ys h)

    pub scale-zeros : (xs : List F) (a : F) → AllZero xs → AllZero (scale xs a)
    scale-zeros [] a h = tt
    scale-zeros (x ∷ xs) a (e, h) = (rw (e, laws.zero_times), scale-zeros xs a h)

    pub plus-zeros : (xs ys : List F) → AllZero xs → AllZero ys → AllZero (zip_with fl.plus xs ys)
    plus-zeros [] ys h k = tt
    plus-zeros (x ∷ xs) [] h k = tt
    plus-zeros (x ∷ xs) (y ∷ ys) (e, h) (f, k) = (rw (e, f, laws.plus_zero), plus-zeros xs ys h k)

    pub square-zeros : (xs : List F) → AllZero xs → AllZero (map api.square xs)
    square-zeros [] h = tt
    square-zeros (x ∷ xs) (e, h) = (rw (e, laws.square_zero), square-zeros xs h)

    pub over-zeros :
        (xs ys : List F)
        → AllZero xs
        → AllZero (zip_with fl.over xs (scale (map api.exp ys) (fl.of_ℕ 2)))
    over-zeros [] ys h = tt
    over-zeros (x ∷ xs) [] h = tt
    over-zeros (x ∷ xs) (y ∷ ys) (e, h) = (rw (e, laws.zero_over), over-zeros xs ys h)

    pub sum_batch_zeros :
        (xs : List F) (len batch n : ℕ)
        → 0 < batch
        → len ≡ batch * n
        → length xs ≡ len
        → AllZero xs
        → sum_batch api xs len batch ≡ ok (replicate batch zero_of)
    sum_batch_zeros xs len batch n pos h k zeros =
        let some_rows : (batch == 0) ≡ false = ground arith in
        let cols : len / batch ≡ n = ap (λ l. l / batch) h ∙ cols_of batch n pos in
        rw (some_rows, cols) (laws.sum_zeros batch n xs (k ∙ h) zeros)

    -- The product of the probabilities and of the differences of their logarithms.
    pub dot_self :
        (logs : List F) (batch n : ℕ)
        → 0 < batch
        → length logs ≡ batch * n
        → (sub logs logs >>= λ diff. batched_dot api (map api.exp logs) diff batch)
          ≡ ok (replicate batch zero_of)
    unfolding batched_dot
    dot_self logs batch n pos h =
        let diff = zip_with fl.minus logs logs in
        let probs = map api.exp logs in
        let len_diff = length-zip_with fl.minus (length logs) logs logs refl refl in
        let len_probs = length-map api.exp logs in
        rw
          (
            entrywise_ok fl.minus (length logs) logs logs refl refl,
            entrywise_ok fl.times (length logs) probs diff len_probs len_diff,
          )
          (sum_batch_zeros _ (length probs) batch n pos (len_probs ∙ h)
            (length-zip_with fl.times (length probs) probs diff refl (len_diff ∙ sym len_probs))
            (times-zeros probs diff (zip_self logs)))
