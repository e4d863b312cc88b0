-- ===== src/NaturalPg/Fisher/Tests.antt =====
-- Products over integers, of which the policy has three parameters.
use trpo.Prelude.{ℕ, ◌≡◌, refl, List, [], ◌∷◌, true, none, some, arith}
use trpo.Prelude.Int.{ℤ, pos, int_float}
use trpo.NaturalPg.{VectorApi}
use trpo.NaturalPg.Fisher.{get, has, apply_fisher}
use trpo.NaturalPg.Fisher.Keys.{member, apply_fisher_keys}

abbrev numbers : VectorApi ℤ ℤ
numbers = record {
  add = int_float.plus;
  sub = int_float.minus;
  scale = int_float.times;
  dot = int_float.times;
  clear = λ v. pos 0;
  is_zero = λ v. true;
}

abbrev grad : List (ℕ × ℤ)
grad = (3, pos 30) ∷ (1, pos 10) ∷ []

-- Parameter 2 has no gradient; the damping is 2.
fisher_test :
    apply_fisher numbers (pos 2) pos (1 ∷ 2 ∷ 3 ∷ []) (7 ∷ 8 ∷ 9 ∷ []) grad
    ≡ some ((1, pos 27) ∷ (3, pos 69) ∷ [])
unfolding apply_fisher
fisher_test = refl

fewer_olds : apply_fisher numbers (pos 2) pos (1 ∷ []) (7 ∷ 8 ∷ []) grad ≡ none
unfolding apply_fisher
fewer_olds = refl

known : (p : ℕ) → has p grad ≡ true → member p (1 ∷ 2 ∷ 3 ∷ []) ≡ true
unfolding get member
known p h = ground arith

apply_fisher_keys_example :
    (out : List (ℕ × ℤ)) × (apply_fisher numbers (pos 2) pos (1 ∷ 2 ∷ 3 ∷ []) (7 ∷ 8 ∷ 9 ∷ []) grad
      ≡ some out)
    × ((p : ℕ) → has p out ≡ has p grad)
apply_fisher_keys_example =
    apply_fisher_keys numbers (pos 2) pos grad (1 ∷ 2 ∷ 3 ∷ []) (7 ∷ 8 ∷ 9 ∷ []) refl
      ((refl, (refl, tt)), ((refl, tt), (tt, tt))) known
