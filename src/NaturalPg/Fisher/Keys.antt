-- ===== src/NaturalPg/Fisher/Keys.antt =====
-- The product with the Fisher matrix (anypg/natural_pg.go) has the parameters of the gradient.
use trpo.Prelude.{
  ℕ, ◌≤◌, ◌≡◌, refl, ◌∙◌, List, [], ◌∷◌, Bool, true, false, ◌&&◌, ◌||◌, none, some, ◌==◌, All,
  length, Bool-cases, Option-cases, inl, inr, arith,
}
use trpo.Prelude.Float.{Float}
use trpo.NaturalPg.{VectorApi}
use trpo.NaturalPg.Fisher.{
  get, has, new_to_old, new_grad_keys, surrogate_keys, damped, out_loop, apply_fisher,
}

-- The parameters by their positions
pairs : List ℕ → List ℕ → List (ℕ × ℕ)
pairs olds [] = []
pairs [] (new ∷ news) = []
pairs (old ∷ olds) (new ∷ news) = (new, old) ∷ pairs olds news

abbrev pub Different : List ℕ → Type 0
Different [] = Unit
Different (n ∷ ns) = All (λ m. (n == m) ≡ false) ns × Different ns

new_to_old-pairs :
    (olds news : List ℕ) → length news ≤ length olds → new_to_old olds news ≡ some (pairs olds news)
unfolding new_to_old pairs
new_to_old-pairs olds [] h = refl
new_to_old-pairs [] (new ∷ news) h = absurd (omega arith)
new_to_old-pairs (old ∷ olds) (new ∷ news) h = rw (new_to_old-pairs olds news (omega arith)) refl

Found : List (ℕ × ℕ) → ℕ × ℕ → Type 0
Found param_map (new, old) = get new param_map ≡ some old

found_later :
    (new old : ℕ) (param_map : List (ℕ × ℕ)) (olds news : List ℕ)
    → All (λ m. (new == m) ≡ false) news
    → All (Found param_map) (pairs olds news)
    → All (Found ((new, old) ∷ param_map)) (pairs olds news)
unfolding Found pairs get
found_later new old param_map olds [] h f = tt
found_later new old param_map [] (n ∷ news) h f = tt
found_later new old param_map (o ∷ olds) (n ∷ news) (e, h) (f, fs) =
    (rw e f, found_later new old param_map olds news h fs)

found : (olds news : List ℕ) → Different news → All (Found (pairs olds news)) (pairs olds news)
unfolding Found pairs get
found olds [] d = tt
found [] (new ∷ news) d = tt
found (old ∷ olds) (new ∷ news) (apart, d) =
    (ground arith, found_later new old (pairs olds news) olds news apart (found olds news d))

unfoldable pub member : ℕ → List ℕ → Bool
member k [] = false
member k (x ∷ xs) = (x == k) || member k xs

module _ {F V : Type 0} ⦃fl : Float F⦄ (api : VectorApi F V) (damping : F) (jacobian : ℕ → V)
    (grad : List (ℕ × V)) (param_map : List (ℕ × ℕ)) where
  damped_total : (v w : V) → (u : V) × (damped api damping v (some w) ≡ some u)
  unfolding damped
  damped_total v w = elim (Bool-cases (fl.below (fl.of_ℕ 0) damping)) [
    | inl h ↦ (api.add v (api.scale damping w), rw h refl)
    | inr h ↦ (v, rw h refl)
  ]

  keys_absent :
      (new old : ℕ) (rest : List (ℕ × ℕ))
      → get old grad ≡ none
      → new_grad_keys api damping grad ((new, old) ∷ rest) ≡ new_grad_keys api damping grad rest
  unfolding new_grad_keys
  keys_absent new old rest h = ground arith

  keys_there :
      (new old : ℕ) (rest : List (ℕ × ℕ)) (w : V)
      → get old grad ≡ some w
      → new_grad_keys api damping grad ((new, old) ∷ rest)
        ≡ new ∷ new_grad_keys api damping grad rest
  unfolding new_grad_keys
  keys_there new old rest w h = ground arith

  out_there :
      (new old : ℕ) (keys : List ℕ) (w u : V) (out : List (ℕ × V))
      → get new param_map ≡ some old
      → get old grad ≡ some w
      → damped api damping (jacobian new) (some w) ≡ some u
      → out_loop api damping jacobian grad param_map keys ≡ some out
      → out_loop api damping jacobian grad param_map (new ∷ keys) ≡ some ((old, u) ∷ out)
  unfolding out_loop
  out_there new old keys w u out f there d e = ground arith

  Fits : List ℕ → List ℕ → Type 0
  Fits keys olds =
      (out : List (ℕ × V)) × (out_loop api damping jacobian grad param_map keys ≡ some out)
      × ((os : List ℕ) × (surrogate_keys api damping param_map keys ≡ some os))
      × ((p : ℕ) → has p out ≡ (has p grad && member p olds))

  fits :
      (olds news : List ℕ)
      → All (Found param_map) (pairs olds news)
      → length news ≡ length olds
      → Fits (new_grad_keys api damping grad (pairs olds news)) olds
  unfolding Fits Found pairs surrogate_keys member get out_loop new_grad_keys
  fits [] [] f same = ([], refl, ([], refl), λ p. ground arith)
  fits (old ∷ olds) [] f same = absurd (omega arith)
  fits [] (new ∷ news) f same = absurd (omega arith)
  fits (old ∷ olds) (new ∷ news) (f, fs) same =
      let (out, e, (os, g), h) = fits olds news fs (omega arith) in
      elim (Option-cases (get old grad)) [
        | inl absent ↦
            let skip = keys_absent new old (pairs olds news) absent in
            (out, rw skip e, (os, rw skip g), λ p. ground (arith, h p))
        | inr (w, there) ↦
            let (u, d) = damped_total (jacobian new) w in
            let keys = new_grad_keys api damping grad (pairs olds news) in
            let more = keys_there new old (pairs olds news) w there in
            (
              (old, u) ∷ out,
              rw more (out_there new old keys w u out f there d e),
              (old ∷ os, rw more (ground (arith, f, g))),
              λ p. ground (arith, h p),
            )
      ]

module _ {F V : Type 0} ⦃fl : Float F⦄ (api : VectorApi F V) (damping : F) (jacobian : ℕ → V)
    (grad : List (ℕ × V)) where
  -- Where the copied policy has as many parameters as the policy, all different, and the gradient is one of
  -- parameters of the policy: the product has no panic, and it has a vector for exactly the parameters of the
  -- gradient.
  pub apply_fisher_keys :
      (olds news : List ℕ)
      → length news ≡ length olds
      → Different news
      → ((p : ℕ) → has p grad ≡ true → member p olds ≡ true)
      → (out : List (ℕ × V)) × (apply_fisher api damping jacobian olds news grad ≡ some out)
        × ((p : ℕ) → has p out ≡ has p grad)
  unfolding apply_fisher Fits
  apply_fisher_keys olds news same d known =
      let (out, e, (os, g), h) =
        fits api damping jacobian grad (pairs olds news) olds news (found olds news d) same in
      (out, ground (arith, new_to_old-pairs olds news (omega arith), e, g), λ p. h p ∙ within p)
    where
      within : (p : ℕ) → (has p grad && member p olds) ≡ has p grad
      within p = elim (Bool-cases (has p grad)) [
        | inl there ↦ rw (there, known p there) refl
        | inr absent ↦ rw absent refl
      ]
