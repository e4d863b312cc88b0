-- ===== src/ActionSpace/Sized.antt =====
-- The lengths of the vectors that `unpackTuples` of action_space.go gives.
use trpo.Prelude.{
  ℕ, zero, suc, ◌+◌, ◌-◌, ◌*◌, ◌≤◌, ◌≡◌, refl, List, [], ◌∷◌, length, length-append, length-take,
  length-drop, replicate, drop, subst, eq→==, arith,
}
use trpo.Prelude.Failure.{ok}
use trpo.ActionSpace.{slice, sum_sizes, unpack_row, unpack_rows, unpack_tuples}

-- The lengths of the vectors that a batch is split into.
unfoldable pub Sized : {A : Type 0} → List ℕ → ℕ → List (List A) → Type 0
Sized [] rows [] = Unit
Sized [] rows (u ∷ us) = ⊥
Sized (n ∷ ns) rows [] = ⊥
Sized (n ∷ ns) rows (u ∷ us) = (length u ≡ rows * n) × Sized ns rows us

replicate-Sized : (A : Type 0) (ns : List ℕ) → Sized {A = A} ns 0 (replicate (length ns) [])
unfolding Sized
replicate-Sized A [] = tt
replicate-Sized A (n ∷ ns) = (omega arith, replicate-Sized A ns)

module _ {A : Type 0} where
  pub length-slice :
      (xs : List A) (from n : ℕ) → from + n ≤ length xs → length (slice xs from (from + n)) ≡ n
  length-slice xs from n h =
      omega (arith, length-take (from + n - from) (drop from xs), length-drop from xs)

  unpack_row-Sized :
      (ns : List ℕ) (rows offset : ℕ) (xs : List A) (us : List (List A))
      → offset + sum_sizes ns ≤ length xs
      → Sized ns rows us
      → Sized ns (rows + 1) (unpack_row ns offset xs us).0
        × ((unpack_row ns offset xs us).1 ≡ offset + sum_sizes ns)
  unfolding Sized unpack_row
  unpack_row-Sized [] rows offset xs [] h s = (tt, omega arith)
  unpack_row-Sized [] rows offset xs (u ∷ us) h s = absurd s
  unpack_row-Sized (n ∷ ns) rows offset xs [] h s = absurd s
  unpack_row-Sized (n ∷ ns) rows offset xs (u ∷ us) h (len, s) =
      let (rest, end) = unpack_row-Sized ns rows (offset + n) xs us (omega arith) s in
      let joined = length-append u (slice xs offset (offset + n)) in
      let cut = length-slice xs offset n (omega arith) in
      ((omega (arith, joined, cut), rest), omega (arith, end))

  unpack_rows-Sized :
      (ns : List ℕ) (left rows offset : ℕ) (xs : List A) (us : List (List A))
      → offset + sum_sizes ns * left ≤ length xs
      → Sized ns rows us
      → Sized ns (rows + left) (unpack_rows left ns offset xs us)
  unfolding unpack_rows
  unpack_rows-Sized ns zero rows offset xs us h s =
      let same : rows ≡ rows + 0 = omega arith in subst (λ r. Sized ns r us) same s
  unpack_rows-Sized ns (suc left) rows offset xs us h s =
      let (s', end) = unpack_row-Sized ns rows offset xs us (omega arith) s in
      let same : rows + 1 + left ≡ rows + suc left = omega arith in
      let (us', end_at) = unpack_row ns offset xs us in
      subst (λ r. Sized ns r (unpack_rows left ns end_at xs us')) same
        (unpack_rows-Sized ns left (rows + 1) end_at xs us' (omega (arith, end)) s')

  pub unpack_tuples-Sized :
      (ns : List ℕ) (batch : ℕ) (xs : List A)
      → length xs ≡ sum_sizes ns * batch
      → (us : List (List A)) × (unpack_tuples xs ns batch ≡ ok us) × Sized ns batch us
  unfolding unpack_tuples
  unpack_tuples-Sized ns batch xs h =
      let all_rows : 0 + batch ≡ batch = omega arith in
      let fits = eq→== (length xs) (sum_sizes ns * batch) h in
      (
        unpack_rows batch ns 0 xs (replicate (length ns) []),
        rw fits refl,
        subst (λ r. Sized ns r (unpack_rows batch ns 0 xs (replicate (length ns) []))) all_rows
            (unpack_rows-Sized ns batch 0 0 xs (replicate (length ns) []) (omega arith)
              (replicate-Sized A ns)),
      )
