-- ===== src/ActionSpace/KlTests.antt =====
-- A small vector library over integers, and divergences of small batches.
use trpo.Prelude.{
  ℕ, zero, suc, ◌+◌, ◌*◌, ◌≡◌, refl, ap, ap₂, sym, ◌∙◌, List, [], ◌∷◌, ◌++◌, map, false, some,
  length, length-append, length-map, take, drop, replicate, ◌==◌, eq→==, if◌then◌else◌, arith,
}
use native.Mathlib.Nat.{zero-div}
use trpo.Prelude.Int.{ℤ, pos, negsuc, pos_part, int_float}
use trpo.Prelude.Failure.{ok, panic}
use trpo.ActionSpace.Densities.{
  DiffApi, softmax_kl, bernoulli_kl, gaussian_kl, off_on_probs, tuple_kl,
}
use trpo.ActionSpace.Zeros.{Exact, AllZero}
use trpo.ActionSpace.SelfDivergence.{
  softmax, bernoulli, gaussian, Fits, AllFit, kl_of, tuple_kl_self,
}

abbrev sum_row : List ℤ → ℤ
sum_row [] = pos 0
sum_row (x ∷ xs) = int_float.plus x (sum_row xs)

abbrev row_sums : ℕ → ℕ → List ℤ → List ℤ
row_sums zero cols xs = []
row_sums (suc rows) cols xs = sum_row (take cols xs) ∷ row_sums rows cols (drop cols xs)

abbrev entry : List ℤ → ℕ → ℤ
entry [] i = pos 0
entry (x ∷ xs) zero = x
entry (x ∷ xs) (suc i) = entry xs i

-- One column of a matrix, from row `i`.
abbrev column : List ℤ → ℕ → ℕ → ℕ → ℕ → List ℤ
column xs cols j i zero = []
column xs cols j i (suc left) = entry xs (i * cols + j) ∷ column xs cols j (i + 1) left

abbrev columns : List ℤ → ℕ → ℕ → ℕ → ℕ → List ℤ
columns xs rows cols j zero = []
columns xs rows cols j (suc left) = column xs cols j 0 rows ++ columns xs rows cols (j + 1) left

abbrev api : DiffApi ℤ
api = record {
  log_softmax = λ size xs. ok (map (λ x. int_float.minus x (pos 1)) xs);
  sum_cols = λ rows cols xs. if length xs == rows * cols then ok (row_sums rows cols xs) else panic;
  transpose =
      λ rows cols xs. if length xs == rows * cols then ok (columns xs rows cols 0 cols) else panic;
  exp = λ x. pos (1 + pos_part x);
  sigmoid = λ x. x;
  log_sigmoid = λ x. int_float.minus x (pos 1);
  square = λ x. int_float.times x x;
  log_two_pi = pos 2;
}

kl_test : softmax_kl api (pos 3 ∷ pos 1 ∷ []) (pos 1 ∷ pos 1 ∷ []) 1 ≡ ok (pos 6 ∷ [])
unfolding softmax_kl
kl_test = refl

off_on_test : off_on_probs api (pos 3 ∷ pos 5 ∷ []) ≡ ok (negsuc 3 ∷ pos 2 ∷ negsuc 5 ∷ pos 4 ∷ [])
unfolding off_on_probs
off_on_test = refl

-- One mean differs by 2, with variances of 1.
gaussian_kl_test : gaussian_kl api (pos 6 ∷ pos 0 ∷ []) (pos 2 ∷ pos 0 ∷ []) 1 ≡ ok (pos 8 ∷ [])
unfolding gaussian_kl
gaussian_kl_test = refl

odd_size : gaussian_kl api (pos 6 ∷ []) (pos 2 ∷ []) 1 ≡ panic
unfolding gaussian_kl
odd_size = refl

no_batch : bernoulli_kl api [] [] 0 ≡ panic
unfolding bernoulli_kl
no_batch = refl

zeros_sum : (cols : ℕ) (xs : List ℤ) → AllZero xs → sum_row (take cols xs) ≡ pos 0
zeros_sum zero [] h = refl
zeros_sum zero (x ∷ xs) h = refl
zeros_sum (suc cols) [] h = refl
zeros_sum (suc cols) (x ∷ xs) (e, h) = rw (e, zeros_sum cols xs h) refl

zeros_drop : (cols : ℕ) (xs : List ℤ) → AllZero xs → AllZero (drop cols xs)
zeros_drop zero xs h = h
zeros_drop (suc cols) [] h = tt
zeros_drop (suc cols) (x ∷ xs) (e, h) = zeros_drop cols xs h

zeros_rows :
    (rows cols : ℕ) (xs : List ℤ) → AllZero xs → row_sums rows cols xs ≡ replicate rows (pos 0)
zeros_rows zero cols xs h = refl
zeros_rows (suc rows) cols xs h =
    ap₂ ◌∷◌ (zeros_sum cols xs h) (zeros_rows rows cols (drop cols xs) (zeros_drop cols xs h))

length-column : (xs : List ℤ) (cols j i left : ℕ) → length (column xs cols j i left) ≡ left
length-column xs cols j i zero = refl
length-column xs cols j i (suc left) = ap suc (length-column xs cols j (i + 1) left)

length-columns :
    (xs : List ℤ) (rows cols j left : ℕ) → length (columns xs rows cols j left) ≡ rows * left
length-columns xs rows cols j zero = omega arith
length-columns xs rows cols j (suc left) =
    let joined = length-append (column xs cols j 0 rows) (columns xs rows cols (j + 1) left) in
    let one = length-column xs cols j 0 rows in
    let rest = length-columns xs rows cols (j + 1) left in
    let one_more : rows * suc left ≡ rows + rows * left = grind arith in
    omega (arith, joined, one, rest, one_more)

self : (x : ℤ) → int_float.minus x x ≡ pos 0
self (pos n) = ground arith
self (negsuc n) = ground arith

times_none : (x : ℤ) → int_float.times x (pos 0) ≡ pos 0
times_none (pos n) = ground arith
times_none (negsuc n) = ground arith

none_times : (x : ℤ) → int_float.times (pos 0) x ≡ pos 0
none_times (pos n) = ground arith
none_times (negsuc n) = ground arith

zero_over : (b : ℤ) → int_float.over (pos 0) b ≡ pos 0
zero_over (pos n) = rw (zero-div (n + 0)) refl
zero_over (negsuc n) =
    let some : (suc n == 0) ≡ false = ground arith in rw (zero-div (0 + suc n), some) refl

exact : Exact api
exact = record {
  minus_self = self;
  times_zero = times_none;
  zero_times = none_times;
  plus_zero = refl;
  square_zero = refl;
  zero_over = λ x. zero_over (int_float.times (api.exp x) (pos 2));
  sum_zeros = λ rows cols xs len h.
      let fits = eq→== (length xs) (rows * cols) len in rw fits (ap ok (zeros_rows rows cols xs h));
  log_softmax_ok = λ size rows xs len. (_, refl, length-map _ xs);
  transpose_ok = λ rows cols xs len.
      let fits = eq→== (length xs) (rows * cols) len in
      (columns xs rows cols 0 cols, rw fits refl, length-columns xs rows cols 0 cols ∙ sym len);
}

-- A categorical space of three actions, a binary one and a Gaussian, in a batch of two.
tuple_kl_self_example :
    tuple_kl
      (map (kl_of api exact) (softmax ∷ bernoulli ∷ gaussian ∷ []))
      (3 ∷ 1 ∷ 2 ∷ [])
      (pos 3
        ∷ pos 1
        ∷ pos 4
        ∷ pos 5
        ∷ pos 2
        ∷ pos 1
        ∷ negsuc 1
        ∷ pos 7
        ∷ pos 0
        ∷ pos 6
        ∷ pos 9
        ∷ pos 3
        ∷ [])
      (pos 3
        ∷ pos 1
        ∷ pos 4
        ∷ pos 5
        ∷ pos 2
        ∷ pos 1
        ∷ negsuc 1
        ∷ pos 7
        ∷ pos 0
        ∷ pos 6
        ∷ pos 9
        ∷ pos 3
        ∷ [])
      2
    ≡ ok (some (pos 0 ∷ pos 0 ∷ []))
unfolding AllFit Fits
tuple_kl_self_example =
    tuple_kl_self api exact softmax (bernoulli ∷ gaussian ∷ []) 3 (1 ∷ 2 ∷ [])
      (pos 3
        ∷ pos 1
        ∷ pos 4
        ∷ pos 5
        ∷ pos 2
        ∷ pos 1
        ∷ negsuc 1
        ∷ pos 7
        ∷ pos 0
        ∷ pos 6
        ∷ pos 9
        ∷ pos 3
        ∷ [])
      2 (omega arith) (tt, (tt, ((1, refl), tt))) refl
