-- ===== src/Judger/Shape.antt =====
-- anypg/judger.go: the judged rewards have the dimensions of the rewards of the rollouts.
use trpo.Prelude.{
  ℕ, suc, ◌+◌, ◌≡◌, refl, ap, ap₂, sym, subst, ◌∙◌, List, [], ◌∷◌, ◌++◌, map, replicate, All, true,
  false, arith, length, length-append, length-map, if◌then◌else◌, Bool-cases, inl, inr,
}
use trpo.Prelude.Float.{Float}
use trpo.Prelude.Failure.{ok}
use trpo.Rewards.{Rewards, totals}
use trpo.Judger.{
  QJudger, TotalJudger, flatten_rewards, fill, unflatten_rewards, q_values, standardize, survey,
  normalize_rewards, q_judge, repeat_totals, total_judge,
}
use trpo.Judger.Recursion.{q_spec, q_values-q_spec}

-- The length of each sequence.
abbrev pub dimensions : {F : Type 0} → Rewards F → List ℕ
dimensions [] = []
dimensions (seq ∷ r) = length seq ∷ dimensions r

module _ {F : Type 0} where
  record IsFilled (seq flat : List F) : Type 0 where
    new : List F
    rest : List F
    filled : fill seq flat ≡ ok (new, rest)
    split : new ++ rest ≡ flat
    sized : length new ≡ length seq

  fill-IsFilled : (seq flat : List F) (n : ℕ) → length flat ≡ length seq + n → IsFilled seq flat
  unfolding fill
  fill-IsFilled [] flat n h = record {
    new = [];
    rest = flat;
    filled = refl;
    split = refl;
    sized = refl;
  }
  fill-IsFilled (y ∷ seq) [] n h = absurd (omega arith)
  fill-IsFilled (y ∷ seq) (x ∷ flat) n h =
      let f = fill-IsFilled seq flat n (omega arith) in
      record {
        new = x ∷ f.new;
        rest = f.rest;
        filled = rw f.filled;
        split = ap (◌∷◌ x) f.split;
        sized = ap suc f.sized;
      }

  -- Unflattening as many values as the rewards hold does not fault, keeps the dimensions, and is
  -- undone by flattening.
  pub unflatten_rewards_lem :
      (r : Rewards F) (flat : List F)
      → length flat ≡ length (flatten_rewards r)
      → (out : Rewards F) × (unflatten_rewards r flat ≡ ok out)
        × (dimensions out ≡ dimensions r)
        × (flatten_rewards out ≡ flat)
  unfolding unflatten_rewards flatten_rewards
  unflatten_rewards_lem [] [] h = ([], refl, refl, refl)
  unflatten_rewards_lem [] (x ∷ flat) h = absurd (omega arith)
  unflatten_rewards_lem (seq ∷ r) flat h =
      let n = length-append seq (flatten_rewards r) in
      let f = fill-IsFilled seq flat (length (flatten_rewards r)) (omega (arith, n)) in
      let m = length-append f.new f.rest in
      let (out, e, d, g) =
        unflatten_rewards_lem r f.rest (omega (arith, n, m, ap length f.split, f.sized)) in
      (f.new ∷ out, rw (f.filled, e), ap₂ ◌∷◌ f.sized d, rw g f.split)

module _ {F : Type 0} ⦃fl : Float F⦄ where
  open fl use {of_ℕ, plus, differs}

  length-standardize : (eps sum : F) (xs : List F) → length (standardize eps sum xs) ≡ length xs
  unfolding standardize
  length-standardize eps sum xs = length-map _ (map _ xs) ∙ length-map _ xs

  length-normalize_rewards :
      (one_e8 epsilon : F) (xs : List F) → length (normalize_rewards one_e8 epsilon xs) ≡ length xs
  unfolding normalize_rewards
  length-normalize_rewards one_e8 epsilon [] = refl
  length-normalize_rewards one_e8 epsilon (x ∷ xs) =
      elim (Bool-cases (survey x (of_ℕ 0) false (x ∷ xs)).1) [
        | inl e ↦ rw e (length-standardize _ _ (x ∷ xs))
        | inr e ↦ rw e (length-map _ (x ∷ xs))
      ]

  dimensions-q_values :
      (discount : F) (r : Rewards F) → dimensions (map (q_values discount) r) ≡ dimensions r
  dimensions-q_values discount [] = refl
  dimensions-q_values discount (seq ∷ r) =
      ap₂ ◌∷◌ (ap length (q_values-q_spec discount seq) ∙ length-q_spec seq)
        (dimensions-q_values discount r)
    where
      length-q_spec : (xs : List F) → length (q_spec discount xs) ≡ length xs
      length-q_spec [] = refl
      length-q_spec (x ∷ xs) = ap suc (length-q_spec xs)

  map-q_values :
      (discount : F) (r : Rewards F) → map (q_values discount) r ≡ map (q_spec discount) r
  map-q_values discount [] = refl
  map-q_values discount (seq ∷ r) = ap₂ ◌∷◌ (q_values-q_spec discount seq) (map-q_values discount r)

  -- `QJudger` does not fault, and gives rewards of the same dimensions. Read in order, they are the
  -- recursive Q-values of the episodes, normalized together if that is asked for.
  pub q_judge_lem :
      (one_e8 : F) (q : QJudger F) (r : Rewards F)
      → let values = flatten_rewards (map (q_spec q.discount) r) in
        (out : Rewards F) × (q_judge one_e8 q r ≡ ok out)
        × (dimensions out ≡ dimensions r)
        × (flatten_rewards out
            ≡ (if q.normalize then normalize_rewards one_e8 q.epsilon values else values))
  unfolding q_judge
  q_judge_lem one_e8 q r =
      let res = map (q_values q.discount) r in
      let same = map-q_values q.discount r in
      elim (Bool-cases q.normalize) [
        | inl e ↦
            let flat = normalize_rewards one_e8 q.epsilon (flatten_rewards res) in
            let (out, f, d, g) =
              unflatten_rewards_lem res flat
                (length-normalize_rewards one_e8 q.epsilon (flatten_rewards res)) in
            (out, rw e f, d ∙ dimensions-q_values q.discount r, rw (e, ← same) g)
        | inr e ↦ (res, rw e refl, dimensions-q_values q.discount r, rw (e, same) refl)
      ]

  -- Every step of an episode gets the episode's value.
  abbrev pub spread : Rewards F → List F → Rewards F
  spread [] xs = []
  spread (seq ∷ r) [] = [] ∷ spread r []
  spread (seq ∷ r) (x ∷ xs) = replicate (length seq) x ∷ spread r xs

  map-const : (x : F) (seq : List F) → map (λ _. x) seq ≡ replicate (length seq) x
  map-const x [] = refl
  map-const x (y ∷ seq) = ap (◌∷◌ x) (map-const x seq)

  repeat_totals-spread :
      (r : Rewards F) (xs : List F) → length xs ≡ length r → repeat_totals r xs ≡ ok (spread r xs)
  unfolding repeat_totals
  repeat_totals-spread [] xs h = refl
  repeat_totals-spread (seq ∷ r) [] h = absurd (omega arith)
  repeat_totals-spread ([] ∷ r) (x ∷ xs) h = rw (repeat_totals-spread r xs (omega arith))
  repeat_totals-spread ((y ∷ seq) ∷ r) (x ∷ xs) h =
      rw (repeat_totals-spread r xs (omega arith), map-const x seq)

  -- `TotalJudger` does not fault. At every step of an episode it gives the total of that episode,
  -- normalized among the totals if that is asked for.
  pub total_judge-spread :
      (one_e8 : F) (t : TotalJudger F) (r : Rewards F)
      → total_judge one_e8 t r
        ≡ ok (
            spread r
              (if t.normalize then normalize_rewards one_e8 t.epsilon (totals r) else totals r))
  unfolding total_judge totals
  total_judge-spread one_e8 t r =
      let sums = totals r in
      elim (Bool-cases t.normalize) [
        | inl e ↦ rw e (
            repeat_totals-spread r (normalize_rewards one_e8 t.epsilon sums)
              (length-normalize_rewards one_e8 t.epsilon sums ∙ length-map _ r))
        | inr e ↦ rw e (repeat_totals-spread r sums (length-map _ r))
      ]

  survey-same :
      (first sum : F) (xs : List F)
      → All (λ x. differs x first ≡ false) xs
      → (survey first sum false xs).1 ≡ false
  unfolding survey
  survey-same first sum [] h = refl
  survey-same first sum (x ∷ xs) (h, hs) =
      subst (λ b. (survey first (plus sum x) (if b then true else false) xs).1 ≡ false) (sym h)
        (survey-same first (plus sum x) xs hs)

  -- Rewards of which none differs from the first are normalized to zeros, with no division.
  pub normalize_rewards_same :
      (one_e8 epsilon first : F) (more : List F)
      → All (λ x. differs x first ≡ false) (first ∷ more)
      → normalize_rewards one_e8 epsilon (first ∷ more) ≡ replicate (suc (length more)) (of_ℕ 0)
  unfolding normalize_rewards
  normalize_rewards_same one_e8 epsilon first more h =
      rw (survey-same first (of_ℕ 0) (first ∷ more) h) (map-const (of_ℕ 0) (first ∷ more))
