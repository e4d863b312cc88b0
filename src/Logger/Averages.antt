-- ===== src/Logger/Averages.antt =====
-- `averager` (anya3c/logger.go): what it returns for as many values as make an average.
use trpo.Prelude.{
  ℕ, suc, ◌+◌, ◌<◌, ◌≡◌, refl, ap, ◌∙◌, List, [], ◌∷◌, ◌++◌, Option, none, some, length, replicate,
  arith,
}
use trpo.Prelude.Float.{Float}
use trpo.Logger.{Averager, new_sum, add, add_all}

module _ {F : Type 0} ⦃fl : Float F⦄ where
  open fl use {of_ℕ, plus, over}

  -- The sum of some values, from what is there.
  abbrev pub sum_from : F → List F → F
  sum_from sum [] = sum
  sum_from sum (x ∷ xs) = sum_from (plus sum x) xs

  abbrev ready : Averager F
  ready = record { cur_count = 0; cur_sum = some (of_ℕ 0) }

  one_call :
      (size : ℕ) (x : F) (a : Averager F)
      → a.cur_count + 1 < size
      → add size x a
        ≡ (none, record { cur_count = a.cur_count + 1; cur_sum = some (new_sum a.cur_sum x) })
  unfolding add
  one_call size x a l = ground arith

  last_call :
      (size : ℕ) (x : F) (a : Averager F)
      → a.cur_count + 1 ≡ size
      → add size x a ≡ (some (over (new_sum a.cur_sum x) (of_ℕ size)), ready)
  unfolding add
  last_call size x a e = ground arith

  add_all-next :
      (size : ℕ) (x : F) (xs : List F) (a : Averager F) (out : Option F) (a' : Averager F)
      → add size x a ≡ (out, a')
      → add_all size (x ∷ xs) a ≡ (out ∷ (add_all size xs a').0, (add_all size xs a').1)
  unfolding add_all
  add_all-next size x xs a out a' e =
      ap (λ r. (r.0 ∷ (add_all size xs r.1).0, (add_all size xs r.1).1)) e

  add_all-none : (size : ℕ) (a : Averager F) → add_all size [] a ≡ ([], a)
  unfolding add_all
  add_all-none size a = refl

  fills :
      (size : ℕ) (x : F) (xs : List F) (a : Averager F)
      → a.cur_count + suc (length xs) ≡ size
      → add_all size (x ∷ xs) a ≡ (
        replicate (length xs) none
            ++ (some (over (sum_from (new_sum a.cur_sum x) xs) (of_ℕ size)) ∷ []),
        ready,
      )
  fills size x [] a e =
      add_all-next size x [] a _ _ (last_call size x a (omega arith))
      ∙ ap (λ r. (some (over (new_sum a.cur_sum x) (of_ℕ size)) ∷ r.0, r.1))
          (add_all-none size ready)
  fills size x (y ∷ ys) a e =
      let a' : Averager F = record {
        cur_count = a.cur_count + 1;
        cur_sum = some (new_sum a.cur_sum x);
      } in
      add_all-next size x (y ∷ ys) a none a' (one_call size x a (omega arith))
      ∙ ap (λ r. (none ∷ r.0, r.1)) (fills size y ys a' (omega arith))

  -- An averager between two averages, given as many values as its size, is silent but for the last one,
  -- at which it returns their sum, together with what its sum was, over their number; it is then between
  -- two averages again, with a sum of 0.
  pub add_all-fills :
      (size : ℕ) (x : F) (xs : List F) (a : Averager F)
      → a.cur_count ≡ 0
      → suc (length xs) ≡ size
      → add_all size (x ∷ xs) a ≡ (
        replicate (length xs) none
            ++ (some (over (sum_from (new_sum a.cur_sum x) xs) (of_ℕ size)) ∷ []),
        record { cur_count = 0; cur_sum = some (of_ℕ 0) },
      )
  add_all-fills size x xs a e f = fills size x xs a (omega arith)
