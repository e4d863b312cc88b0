-- ===== src/ActionSpace/Packing.antt =====
-- `packTuples` and `unpackTuples` (action_space.go) against each other.
use native.Mathlib.Nat.{mul-div_cancel, mul-le-mul_right}
use trpo.Prelude.{
  ℕ, zero, suc, ◌+◌, ◌-◌, ◌*◌, ◌/◌, ◌≤◌, ◌<◌, ◌≡◌, refl, ap, sym, subst, ◌∙◌, List, [], ◌∷◌, ◌++◌,
  map, length, length-append, length-take, take-append_length, drop-append_length, eq→==, ◌==◌,
  false, length-drop, take, drop, replicate, concat, append_assoc, arith,
}
use trpo.Prelude.Failure.{ok}
use trpo.ActionSpace.{
  slice, sum_sizes, unpack_row, unpack_rows, unpack_tuples, chunk, pack_rows, pack_tuples,
}

-- Batches of vectors, each with the size of its space.
abbrev pub Sized : {A : Type 0} → ℕ → List ℕ → List (List A) → Type 0
Sized batch [] [] = Unit
Sized batch [] (p ∷ ps) = ⊥
Sized batch (n ∷ ns) [] = ⊥
Sized batch (n ∷ ns) (p ∷ ps) = (length p ≡ n * batch) × Sized batch ns ps

plus_zero : (m : ℕ) → m ≡ m + 0
plus_zero m = omega arith

zero_plus : (n : ℕ) → n ≡ 0 + n
zero_plus n = omega arith

suc_plus : (m n : ℕ) → suc (m + n) ≡ suc m + n
suc_plus m n = omega arith

next_row : (i n : ℕ) → (i + 1) * n ≡ i * n + n
next_row i n = omega arith

difference : (i n : ℕ) → (i + 1) * n - i * n ≡ n
difference i n = omega arith

plus_minus : (a n : ℕ) → a + n - a ≡ n
plus_minus a n = omega arith

not_zero : (n : ℕ) → 0 < n → (n == 0) ≡ false
not_zero n h = ground arith

take_all : {A : Type 0} (xs : List A) → take (length xs) xs ≡ xs
take_all [] = refl
take_all (x ∷ xs) = ap (◌∷◌ x) (take_all xs)

take-front : {A : Type 0} (n : ℕ) (xs ys : List A) → length xs ≡ n → take n (xs ++ ys) ≡ xs
take-front n xs ys e = subst (λ k. take k (xs ++ ys) ≡ xs) e (take-append_length xs ys)

drop-front : {A : Type 0} (n : ℕ) (xs ys : List A) → length xs ≡ n → drop n (xs ++ ys) ≡ ys
drop-front n xs ys e = subst (λ k. drop k (xs ++ ys) ≡ ys) e (drop-append_length xs ys)

row_fits : (i n batch : ℕ) → i < batch → i * n + n ≤ n * batch
row_fits i n batch l =
    let wide : suc i * n ≤ batch * n = mul-le-mul_right n l in omega (arith, wide)

module _ {A : Type 0} where
  take-nil : (n : ℕ) → take {A = A} n [] ≡ []
  take-nil zero = refl
  take-nil (suc n) = refl

  drop-nil : (n : ℕ) → drop {A = A} n [] ≡ []
  drop-nil zero = refl
  drop-nil (suc n) = refl

  take-add : (m n : ℕ) (xs : List A) → take m xs ++ take n (drop m xs) ≡ take (m + n) xs
  take-add zero n xs = ap (λ k. take k xs) (zero_plus n)
  take-add (suc m) n [] = take-nil n ∙ sym (take-nil (suc m + n))
  take-add (suc m) n (x ∷ xs) =
      ap (◌∷◌ x) (take-add m n xs) ∙ ap (λ k. take k (x ∷ xs)) (suc_plus m n)

  drop-add : (m n : ℕ) (xs : List A) → drop n (drop m xs) ≡ drop (m + n) xs
  drop-add zero n xs = ap (λ k. drop k xs) (zero_plus n)
  drop-add (suc m) n [] = drop-nil n ∙ sym (drop-nil (suc m + n))
  drop-add (suc m) n (x ∷ xs) = drop-add m n xs ∙ ap (λ k. drop k (x ∷ xs)) (suc_plus m n)

  chunk-take :
      (batch i n : ℕ) (p : List A)
      → 0 < batch
      → length p ≡ n * batch
      → chunk batch i p ≡ take n (drop (i * n) p)
  unfolding chunk
  chunk-take batch i n p pos e =
      let size : length p / batch ≡ n = ap (λ k. k / batch) e ∙ mul-div_cancel n pos in
      let wide : (i + 1) * n - i * n ≡ n = difference i n in
      ap (λ k. slice p (i * k) ((i + 1) * k)) size ∙ ap (λ k. take k (drop (i * n) p)) wide

  length-chunk :
      (batch i n : ℕ) (p : List A) → i < batch → length p ≡ n * batch → length (chunk batch i p) ≡ n
  length-chunk batch i n p l e =
      let size = length-take n (drop (i * n) p) in
      let rest = length-drop (i * n) p in
      let room : i * n + n ≤ n * batch = row_fits i n batch l in
      ap length (chunk-take batch i n p (omega arith) e) ∙ omega (arith, size, rest, room)

  -- What the spaces have after `i` rows.
  before : ℕ → List ℕ → List (List A) → List (List A)
  before i [] ps = []
  before i (n ∷ ns) [] = []
  before i (n ∷ ns) (p ∷ ps) = take (i * n) p ∷ before i ns ps

  row-before :
      (batch i : ℕ) (sizes : List ℕ) (ps : List (List A)) (offset : ℕ) (xs rest : List A)
      → i < batch
      → Sized batch sizes ps
      → drop offset xs ≡ concat (map (chunk batch i) ps) ++ rest
      → (unpack_row sizes offset xs (before i sizes ps)
          ≡ (before (i + 1) sizes ps, offset + sum_sizes sizes))
        × (drop (offset + sum_sizes sizes) xs ≡ rest)
  unfolding unpack_row before
  row-before batch i [] [] offset xs rest l sized e =
      (ap (λ k. ([], k)) (plus_zero offset), ap (λ k. drop k xs) (sym (plus_zero offset)) ∙ e)
  row-before batch i [] (p ∷ ps) offset xs rest l sized e = elim sized [ ]
  row-before batch i (n ∷ ns) [] offset xs rest l sized e = elim sized [ ]
  row-before batch i (n ∷ ns) (p ∷ ps) offset xs rest l (s, sized) e =
      let c = chunk batch i p in
      let long = length-chunk batch i n p l s in
      let others = concat (map (chunk batch i) ps) ++ rest in
      let parts : drop offset xs ≡ c ++ others =
        e ∙ append_assoc c (concat (map (chunk batch i) ps)) rest in
      let own : slice xs offset (offset + n) ≡ c =
        ap (λ k. take k (drop offset xs)) (plus_minus offset n)
        ∙ ap (take n) parts
        ∙ take-front n c others long in
      let further : drop (offset + n) xs ≡ others =
        sym (drop-add offset n xs) ∙ ap (drop n) parts ∙ drop-front n c others long in
      let (row, left) = row-before batch i ns ps (offset + n) xs rest l sized further in
      let end : offset + n + sum_sizes ns ≡ offset + (n + sum_sizes ns) = omega arith in
      let grown : take (i * n) p ++ slice xs offset (offset + n) ≡ take ((i + 1) * n) p =
        ap (λ u. take (i * n) p ++ u) (own ∙ chunk-take batch i n p (omega arith) s)
        ∙ take-add (i * n) n p
        ∙ ap (λ k. take k p) (sym (next_row i n)) in
      (
        ap (λ r. ((take (i * n) p ++ slice xs offset (offset + n)) ∷ r.0, r.1)) row
            ∙ ap (λ u. (u ∷ before (i + 1) ns ps, offset + n + sum_sizes ns)) grown
            ∙ ap (λ k. (take ((i + 1) * n) p ∷ before (i + 1) ns ps, k)) end,
        ap (λ k. drop k xs) (sym end) ∙ left,
      )

  rows-before :
      (batch left i : ℕ) (sizes : List ℕ) (ps : List (List A)) (offset : ℕ) (xs : List A)
      → i + left ≡ batch
      → Sized batch sizes ps
      → drop offset xs ≡ pack_rows batch i left ps
      → unpack_rows left sizes offset xs (before i sizes ps) ≡ before batch sizes ps
  unfolding unpack_rows pack_rows
  rows-before batch zero i sizes ps offset xs e sized d =
      let at_end : i ≡ batch = omega arith in ap (λ k. before k sizes ps) at_end
  rows-before batch (suc left) i sizes ps offset xs e sized d =
      let (row, rest) =
        row-before batch i sizes ps offset xs (pack_rows batch (i + 1) left ps) (omega arith) sized
          d in
      ap (λ r. unpack_rows left sizes r.1 xs r.0) row
      ∙ rows-before batch left (i + 1) sizes ps (offset + sum_sizes sizes) xs (omega arith) sized
          rest

  -- Nothing before the first row, and all after the last.
  before-zero :
      (batch : ℕ) (sizes : List ℕ) (ps : List (List A))
      → Sized batch sizes ps
      → before 0 sizes ps ≡ replicate (length sizes) []
  unfolding before
  before-zero batch [] [] s = refl
  before-zero batch [] (p ∷ ps) s = elim s [ ]
  before-zero batch (n ∷ ns) [] s = elim s [ ]
  before-zero batch (n ∷ ns) (p ∷ ps) (e, s) =
      let none_yet : 0 * n ≡ 0 = omega arith in
      ap (λ k. take k p ∷ before 0 ns ps) none_yet ∙ ap (λ us. [] ∷ us) (before-zero batch ns ps s)

  before-all :
      (batch : ℕ) (sizes : List ℕ) (ps : List (List A))
      → Sized batch sizes ps
      → before batch sizes ps ≡ ps
  unfolding before
  before-all batch [] [] s = refl
  before-all batch [] (p ∷ ps) s = elim s [ ]
  before-all batch (n ∷ ns) [] s = elim s [ ]
  before-all batch (n ∷ ns) (p ∷ ps) (e, s) =
      let whole : batch * n ≡ length p = omega (arith, e) in
      ap (λ k. take k p ∷ before batch ns ps) whole
      ∙ ap (λ q. q ∷ before batch ns ps) (take_all p)
      ∙ ap (λ qs. p ∷ qs) (before-all batch ns ps s)

  length-row :
      (batch i : ℕ) (sizes : List ℕ) (ps : List (List A))
      → i < batch
      → Sized batch sizes ps
      → length (concat (map (chunk batch i) ps)) ≡ sum_sizes sizes
  length-row batch i [] [] l s = refl
  length-row batch i [] (p ∷ ps) l s = elim s [ ]
  length-row batch i (n ∷ ns) [] l s = elim s [ ]
  length-row batch i (n ∷ ns) (p ∷ ps) l (e, s) = omega (
    arith,
    length-append (chunk batch i p) (concat (map (chunk batch i) ps)),
    length-chunk batch i n p l e,
    length-row batch i ns ps l s,
  )

  length-pack_rows :
      (batch left i : ℕ) (sizes : List ℕ) (ps : List (List A))
      → i + left ≡ batch
      → Sized batch sizes ps
      → length (pack_rows batch i left ps) ≡ left * sum_sizes sizes
  unfolding pack_rows
  length-pack_rows batch zero i sizes ps e s = omega arith
  length-pack_rows batch (suc left) i sizes ps e s = omega (
    arith,
    length-append (concat (map (chunk batch i) ps)) (pack_rows batch (i + 1) left ps),
    length-row batch i sizes ps (omega arith) s,
    length-pack_rows batch left (i + 1) sizes ps (omega arith) s,
  )

  -- Take at least one space and at least one element in the batch, with vectors of the sizes of the
  -- spaces. `packTuples` then returns one vector, and `unpackTuples` for these sizes accepts it and gives
  -- back the vectors of each space.
  pub unpack_tuples-pack_tuples :
      (batch : ℕ) (sizes : List ℕ) (p : List A) (ps : List (List A))
      → 0 < batch
      → Sized batch sizes (p ∷ ps)
      → (xs : List A) × (pack_tuples (p ∷ ps) batch ≡ ok xs)
        × (unpack_tuples xs sizes batch ≡ ok (p ∷ ps))
  unfolding pack_tuples unpack_tuples
  unpack_tuples-pack_tuples batch sizes p ps pos s =
      let xs = pack_rows batch 0 batch (p ∷ ps) in
      let all = rows-before batch batch 0 sizes (p ∷ ps) 0 xs (omega arith) s refl in
      let gives : unpack_rows batch sizes 0 xs (replicate (length sizes) []) ≡ p ∷ ps =
        ap (unpack_rows batch sizes 0 xs) (sym (before-zero batch sizes (p ∷ ps) s))
        ∙ all
        ∙ before-all batch sizes (p ∷ ps) s in
      let long : length xs ≡ sum_sizes sizes * batch =
        omega (arith, length-pack_rows batch batch 0 sizes (p ∷ ps) (omega arith) s) in
      (
        xs,
        rw (not_zero batch pos) refl,
        rw (eq→== (length xs) (sum_sizes sizes * batch) long) (ap ok gives),
      )
