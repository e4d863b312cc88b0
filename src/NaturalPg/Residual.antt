-- ===== src/NaturalPg/Residual.antt =====
-- The conjugate gradients of anypg/natural_pg.go, against the formulas of the method.
use trpo.Prelude.{ℕ, zero, suc, ◌≡◌, List, Option, none, some, length}
use trpo.Prelude.Float.{Float}
use trpo.NaturalPg.{VectorApi, scale_grad, zero_grad, add_to_grad, sub_from_grad, dot_grad, Search}

module _ {F V : Type 0} ⦃fl : Float F⦄ (api : VectorApi F V) where
  -- Laws of vectors, and of a product with a matrix.
  pub record Linear (apply_fisher : List V → List V) : Type 0 where
    pub sub_sub : (a b c : V) → api.sub (api.sub a b) c ≡ api.sub a (api.add b c)
    pub sub_clear : (a b : V) → api.sub a (api.clear b) ≡ a
    pub same_keys : (g : List V) → length (apply_fisher g) ≡ length g
    pub of_zero : (g : List V) → apply_fisher (zero_grad api g) ≡ zero_grad api g
    pub of_step :
        (x p : List V) (a : F)
        → apply_fisher (add_to_grad api x (scale_grad api a p))
          ≡ add_to_grad api (apply_fisher x) (scale_grad api a (apply_fisher p))

  module _ (apply_fisher : List V → List V) (laws : Linear apply_fisher) where
    -- The method by its formulas, from a solution `x` and a direction `p`. The residual is always that of `x`:
    -- with `r = grad - Fx`, the next solution is `x + ap`, where `a = (r.r)/(p.Fp)`, and the next direction is
    -- `r' + bp`, where `r' = grad - F(x + ap)` and `b = (r'.r')/(r.r)`.
    abbrev pub textbook : ℕ → List V → List V → List V → Option (List V)
    textbook zero grad x p = some x
    textbook (suc n) grad x p =
        let r = sub_from_grad api grad (apply_fisher x) in
        elim (dot_grad api r r) [
          | none ↦ none
          | some mag ↦ elim (dot_grad api p (apply_fisher p)) [
            | none ↦ none
            | some curvature ↦
                let x' = add_to_grad api x (scale_grad api (fl.over mag curvature) p) in
                let r' = sub_from_grad api grad (apply_fisher x') in
                elim (dot_grad api r' r') [
                  | none ↦ none
                  | some mag' ↦
                      textbook n grad x' (add_to_grad api r' (scale_grad api (fl.over mag' mag) p))
                ]
          ]
        ]

    -- What holds of the variables of the loop, in a search for `x` with `Fx = grad`.
    record Kept (grad : List V) (s : Search F V) : Type 0 where
      residual_is : s.residual ≡ sub_from_grad api grad (apply_fisher s.x)
      mag_is : dot_grad api s.residual s.residual ≡ some s.residual_mag
      x_keys : length s.x ≡ length grad
      proj_keys : length s.proj ≡ length grad
