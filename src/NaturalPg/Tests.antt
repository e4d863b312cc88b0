-- ===== src/NaturalPg/Tests.antt =====
-- Conjugate gradients for vectors with one component, and a Fisher matrix that doubles.
use trpo.Prelude.{ℕ, ◌+◌, ◌-◌, ◌*◌, ◌≡◌, refl, List, [], ◌∷◌, map, true, false, some, ◌==◌}
use trpo.Prelude.Int.{ℤ, pos, pos_part, int_float}
use trpo.NaturalPg.{VectorApi, run_natural, zero_grad}

abbrev numbers : VectorApi ℤ ℕ
numbers = record {
  add = λ v w. v + w;
  sub = λ v w. v - w;
  scale = λ x v. pos_part x * v;
  dot = λ v w. pos (v * w);
  clear = λ v. 0;
  is_zero = λ v. v == 0;
}

abbrev twice : List ℕ → List ℕ
twice g = map (λ v. v + v) g

-- A gradient of zeros comes back as it is.
zero_test :
    run_natural numbers (λ reduced. twice) true 0 (0 ∷ 0 ∷ [])
    ≡ some (record { grad = 0 ∷ 0 ∷ []; zero_grad = true; reduced = false })
unfolding run_natural
zero_test = refl
