-- ===== src/Env/Runs.antt =====
-- Sequences of calls of `Step` (env.go), one after the other.
use trpo.Prelude.{◌≡◌, refl, ap, List, [], ◌∷◌, ◌++◌}
use trpo.Env.{StepOut, run}

module _ {A F S : Type 0} (step : S → A → StepOut F × S) where
  pub run-append-1 :
      (s : S) (xs ys : List A) → (run step s (xs ++ ys)).1 ≡ (run step (run step s xs).1 ys).1
  unfolding run
  run-append-1 s [] ys = refl
  run-append-1 s (x ∷ xs) ys = run-append-1 (step s x).1 xs ys

  pub run-append-0 :
      (s : S) (xs ys : List A)
      → (run step s (xs ++ ys)).0 ≡ (run step s xs).0 ++ (run step (run step s xs).1 ys).0
  unfolding run
  run-append-0 s [] ys = refl
  run-append-0 s (x ∷ xs) ys = ap (◌∷◌ (step s x).0) (run-append-0 (step s x).1 xs ys)
