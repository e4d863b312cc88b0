-- ===== src/Trpo/Tests.antt =====
-- The line search at concrete inputs, with vectors of one component.
use trpo.Prelude.{
  ℕ, ◌+◌, ◌-◌, ◌*◌, ◌≡◌, refl, List, [], ◌∷◌, Option, none, some, ◌==◌, if◌then◌else◌, false,
}
use trpo.Prelude.Int.{ℤ, pos, negsuc, pos_part, int_float}
use trpo.NaturalPg.{VectorApi, dot_grad}
use trpo.Trpo.{Trpo, line_search, run_trpo, step_size, stepped_policy, move_step}
use trpo.Trpo.LineSearch.{Found, line_search-Found}

abbrev numbers : VectorApi ℤ ℕ
numbers = record {
  add = λ v w. v + w;
  sub = λ v w. v - w;
  scale = λ x v. pos_part x * v;
  dot = λ v w. pos (v * w);
  clear = λ v. 0;
  is_zero = λ v. v == 0;
}

-- Each round of the search doubles the step.
abbrev doubling : Trpo ℤ
doubling = record { target_kl = pos 30; line_search_decay = pos 2; max_line_search = 5 }

-- The improvement and the divergence of a step.
abbrev mean : List ℕ → ℤ × ℤ
mean [] = (pos 0, pos 0)
mean (v ∷ g) = (if v == 12 then pos 1 else negsuc 0, pos v)

search_test :
    line_search numbers doubling mean 5 (3 ∷ [])
    ≡ (12 ∷ [], (negsuc 0, pos 3) ∷ (negsuc 0, pos 6) ∷ (pos 1, pos 12) ∷ [])
unfolding line_search
search_test = refl

line_search-Found_example :
    Found numbers doubling mean 5 (3 ∷ []) (line_search numbers doubling mean 5 (3 ∷ []))
line_search-Found_example = line_search-Found numbers doubling mean 5 (3 ∷ [])

-- A Fisher product that is not positive gives a step of size zero.
run_test :
    run_trpo numbers doubling
      (λ g. 0 ∷ [])
      mean
      (record { grad = 3 ∷ []; zero_grad = false; reduced = false })
    ≡ some (
      0 ∷ [],
      (negsuc 0, pos 0)
          ∷ (negsuc 0, pos 0)
          ∷ (negsuc 0, pos 0)
          ∷ (negsuc 0, pos 0)
          ∷ (negsuc 0, pos 0)
          ∷ [],
    )
unfolding run_trpo step_size line_search dot_grad
run_test = refl

abbrev step_of : ℕ → Option ℕ
step_of i = if i == 2 then some 40 else none

stepped_test : stepped_policy step_of 1 (1 ∷ 2 ∷ []) (11 ∷ 12 ∷ []) ≡ some ((12, 40) ∷ [])
unfolding stepped_policy move_step
stepped_test = refl

-- A step for a parameter that is not seen is a panic.
unseen_test : stepped_policy step_of 1 (1 ∷ 3 ∷ []) (11 ∷ 13 ∷ []) ≡ none
unfolding stepped_policy move_step
unseen_test = refl
