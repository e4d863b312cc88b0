-- ===== src/NaturalPg/Fisher.antt =====
-- anypg/natural_pg.go: the maps of `applyFisher` from the copied parameters to those of the policy. A parameter
-- is a number, and a map is a list of pairs. What propagation through the copied policy puts into the gradient,
-- `jacobian`, is a parameter.
pub mod Keys
mod Tests
use trpo.Prelude.{
  ℕ, ◌≡◌, refl, List, [], ◌∷◌, Bool, true, false, ◌&&◌, Option, none, some, ◌==◌, if◌then◌else◌,
  All, arith,
}
use trpo.Prelude.Float.{Float}
use trpo.NaturalPg.{VectorApi}

module _ {A : Type 0} where
  unfoldable pub get : ℕ → List (ℕ × A) → Option A
  get k [] = none
  get k ((j, a) ∷ m) = if j == k then some a else get k m

  abbrev pub has : ℕ → List (ℕ × A) → Bool
  has k m = elim (get k m) [ none ↦ false | some a ↦ true ]

-- `newToOld` of `makeFwd`; `none` is an index out of range.
unfoldable pub new_to_old : List ℕ → List ℕ → Option (List (ℕ × ℕ))
new_to_old old [] = some []
new_to_old [] (new ∷ news) = none
new_to_old (old ∷ olds) (new ∷ news) = elim (new_to_old olds news) [
  | none ↦ none
  | some param_map ↦ some ((new, old) ∷ param_map)
]

module _ {F V : Type 0} ⦃fl : Float F⦄ (api : VectorApi F V) (damping : F) where
  open fl use {of_ℕ, below}

  -- The keys of `newGrad`
  unfoldable pub new_grad_keys : List (ℕ × V) → List (ℕ × ℕ) → List ℕ
  unfolding get
  new_grad_keys grad [] = []
  new_grad_keys grad ((new, old) ∷ param_map) =
      if has old grad then new ∷ new_grad_keys grad param_map else new_grad_keys grad param_map

  -- `Use` of `surrogateGrad`, for the keys; `none` is its panic.
  unfoldable pub surrogate_keys : List (ℕ × ℕ) → List ℕ → Option (List ℕ)
  unfolding get
  surrogate_keys param_map [] = some []
  surrogate_keys param_map (new ∷ keys) = elim (get new param_map) [
    | none ↦ none
    | some old ↦ elim (surrogate_keys param_map keys) [
      | none ↦ none
      | some olds ↦ some (old ∷ olds)
    ]
  ]

  -- An entry of `out`; `none` is the copy of a vector that is not there.
  unfoldable pub damped : V → Option V → Option V
  damped v old =
      if below (of_ℕ 0) damping
      then elim old [ none ↦ none | some w ↦ some (api.add v (api.scale damping w)) ]
      else some v

  -- The last loop of `applyFisher`
  unfoldable pub out_loop : (ℕ → V) → List (ℕ × V) → List (ℕ × ℕ) → List ℕ → Option (List (ℕ × V))
  unfolding get damped
  out_loop jacobian grad param_map [] = some []
  out_loop jacobian grad param_map (new ∷ keys) = elim (get new param_map) [
    | none ↦ none
    | some old ↦ elim (damped (jacobian new) (get old grad)) [
      | none ↦ none
      | some v ↦ elim (out_loop jacobian grad param_map keys) [
        | none ↦ none
        | some out ↦ some ((old, v) ∷ out)
      ]
    ]
  ]

  -- `applyFisher`
  unfoldable pub apply_fisher : (ℕ → V) → List ℕ → List ℕ → List (ℕ × V) → Option (List (ℕ × V))
  unfolding new_to_old new_grad_keys surrogate_keys out_loop
  apply_fisher jacobian olds news grad = elim (new_to_old olds news) [
    | none ↦ none
    | some param_map ↦
        let keys = new_grad_keys grad param_map in
        elim (surrogate_keys param_map keys) [
          | none ↦ none
          | some _ ↦ out_loop jacobian grad param_map keys
        ]
  ]
