-- ===== src/NaturalPg.antt =====
-- anypg/natural_pg.go: the natural gradient, by conjugate gradients. A gradient is a map from parameters to
-- vectors; all that the code makes of one have the same keys, so a gradient is the list of its vectors in
-- one order of the keys. The vectors, the policy gradient and the product with the Fisher matrix are
-- parameters.
pub mod Residual
pub mod Fisher
mod Tests
use trpo.Prelude.{
  ℕ, zero, suc, ◌+◌, List, [], ◌∷◌, map, Bool, true, false, ◌&&◌, ◌||◌, Option, none, some, ◌==◌,
  if◌then◌else◌,
}
use trpo.Prelude.Float.{Float}

-- `anyvec.Vector`: `Add`, `Sub`, `Scale`, `Dot`, the zero vector of the same length, and whether
-- `AbsSum` is identical to zero.
pub record VectorApi (F V : Type 0) : Type 0 where
  pub add : V → V → V
  pub sub : V → V → V
  pub scale : F → V → V
  pub dot : V → V → F
  pub clear : V → V
  pub is_zero : V → Bool

-- The variables of `conjugateGradients`.
pub record Search (F V : Type 0) : Type 0 where
  pub x : List V
  pub residual : List V
  pub proj : List V
  pub residual_mag : F

module _ {F V : Type 0} ⦃fl : Float F⦄ (api : VectorApi F V) where
  open api use {add, sub, scale, dot, clear, is_zero}

  -- `grad.Scale`
  abbrev pub scale_grad : F → List V → List V
  scale_grad x g = map (scale x) g

  -- `zeroGrad`
  abbrev pub zero_grad : List V → List V
  zero_grad g = map clear g

  -- `addToGrad` and `subFromGrad`, as the new value of `dst`
  abbrev pub add_to_grad : List V → List V → List V
  add_to_grad [] src = []
  add_to_grad (d ∷ dst) [] = d ∷ dst
  add_to_grad (d ∷ dst) (s ∷ src) = add d s ∷ add_to_grad dst src

  abbrev pub sub_from_grad : List V → List V → List V
  sub_from_grad [] src = []
  sub_from_grad (d ∷ dst) [] = d ∷ dst
  sub_from_grad (d ∷ dst) (s ∷ src) = sub d s ∷ sub_from_grad dst src

  -- The loop of `dotGrad`, where `sum` is `nil` at first.
  abbrev pub dot_loop : Option F → List V → List V → Option F
  dot_loop sum [] g2 = sum
  dot_loop sum (v ∷ g1) [] = sum
  dot_loop none (v ∷ g1) (w ∷ g2) = dot_loop (some (dot v w)) g1 g2
  dot_loop (some sum) (v ∷ g1) (w ∷ g2) = dot_loop (some (fl.plus sum (dot v w))) g1 g2

  -- `dotGrad`; `none` is its panic.
  unfoldable pub dot_grad : List V → List V → Option F
  dot_grad g1 g2 = dot_loop none g1 g2

  -- `allZeros`
  abbrev pub all_zeros : List V → Bool
  all_zeros [] = true
  all_zeros (v ∷ g) = is_zero v && all_zeros g

  module _ (apply_fisher : List V → List V) where
    -- One round of the loop.
    unfoldable pub conjugate_step : Search F V → Option (Search F V)
    unfolding dot_grad
    conjugate_step s =
        let applied_proj = apply_fisher s.proj in
        elim (dot_grad s.proj applied_proj) [
          | none ↦ none
          | some curvature ↦
              let alpha = fl.over s.residual_mag curvature in
              let residual = sub_from_grad s.residual (scale_grad alpha applied_proj) in
              elim (dot_grad residual residual) [
                | none ↦ none
                | some new_mag ↦
                    let beta = fl.over new_mag s.residual_mag in
                    some (record {
                      x = add_to_grad s.x (scale_grad alpha s.proj);
                      residual = residual;
                      proj = add_to_grad residual (scale_grad beta s.proj);
                      residual_mag = new_mag;
                    })
              ]
        ]

    unfoldable pub conjugate_loop : ℕ → Search F V → Option (Search F V)
    unfolding conjugate_step
    conjugate_loop zero s = some s
    conjugate_loop (suc n) s = elim (conjugate_step s) [
      | none ↦ none
      | some s' ↦ conjugate_loop n s'
    ]

    -- The start of the search for `x` with `Fx = grad`.
    abbrev pub start_search : List V → F → Search F V
    start_search grad mag = record {
      x = zero_grad grad;
      residual = grad;
      proj = grad;
      residual_mag = mag;
    }

    -- `conjugateGradients`: the new value of `grad`
    unfoldable pub conjugate_gradients : ℕ → List V → Option (List V)
    unfolding conjugate_loop
    conjugate_gradients iters grad = elim (dot_grad grad grad) [
      | none ↦ none
      | some mag ↦ elim (conjugate_loop iters (start_search grad mag)) [
        | none ↦ none
        | some s ↦ some s.x
      ]
    ]

-- `DefaultConjGradIters` and `iters`
abbrev pub default_conj_grad_iters : ℕ
default_conj_grad_iters = 10

abbrev pub iters_of : ℕ → ℕ
iters_of iters = if iters == 0 then default_conj_grad_iters else iters

-- What `run` returns, without the outputs of the policy: `reduced` tells whether the rollouts were reduced.
pub record NaturalPgRes (V : Type 0) : Type 0 where
  pub grad : List V
  pub zero_grad : Bool
  pub reduced : Bool

module _ {F V : Type 0} ⦃fl : Float F⦄ (api : VectorApi F V) where
  -- `run` of a natural gradient, from the policy gradient `pg_grad`; the Fisher matrix is that of the
  -- reduced rollouts or of all.
  unfoldable pub run_natural :
      (Bool → List V → List V) → Bool → ℕ → List V → Option (NaturalPgRes V)
  unfolding conjugate_gradients
  run_natural fisher reduces iters [] =
      some (record { grad = []; zero_grad = true; reduced = false })
  run_natural fisher reduces iters (v ∷ g) =
      if all_zeros api (v ∷ g)
      then some (record { grad = v ∷ g; zero_grad = true; reduced = false })
      else elim (conjugate_gradients api (fisher reduces) (iters_of iters) (v ∷ g)) [
        | none ↦ none
        | some x ↦ some (record { grad = x; zero_grad = false; reduced = reduces })
      ]
