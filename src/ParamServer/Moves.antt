-- ===== src/ParamServer/Moves.antt =====
-- anya3c/param_server.go: what an event leaves as it was, and lists that are written at a place.
use trpo.Prelude.{
  ℕ, zero, suc, ◌<◌, ◌≡◌, refl, List, [], ◌∷◌, ◌++◌, false, Option, some, length, get_elem?, set,
  ◌==◌, All, arith, subst, Option-cases, inl, inr,
}
use trpo.ParamServer.{Move, waits, crashes, goes, pick}

-- `P` holds of what was sent and of the state after a move that goes on, and `C` if it panics.
abbrev pub After {ℓ} : {V A : Type 0} → Type ℓ → Move V A → (List (ℕ × V) → A → Type ℓ) → Type ℓ
After C waits P = Unit
After C crashes P = C
After C (goes e log s) P = P log s

module _ {ℓ} {A : Type ℓ} where
  pub some_same : (x y : A) → some x ≡ some y → x ≡ y
  some_same x y e = cc

  pub get_elem?-set_same :
      (xs : List A) (i : ℕ) (x v : A) → get_elem? xs i ≡ some x → get_elem? (set xs i v) i ≡ some v
  get_elem?-set_same [] i x v e = cc
  get_elem?-set_same (y ∷ xs) zero x v e = refl
  get_elem?-set_same (y ∷ xs) (suc i) x v e = get_elem?-set_same xs i x v e

  pub get_elem?-set_other :
      (xs : List A) (i j : ℕ) (v : A) → (i == j) ≡ false → get_elem? (set xs i v) j ≡ get_elem? xs j
  get_elem?-set_other [] i j v h = refl
  get_elem?-set_other (y ∷ xs) zero zero v h = cc
  get_elem?-set_other (y ∷ xs) zero (suc j) v h = refl
  get_elem?-set_other (y ∷ xs) (suc i) zero v h = refl
  get_elem?-set_other (y ∷ xs) (suc i) (suc j) v h = get_elem?-set_other xs i j v (ground arith)

  pub get_elem?-length : (xs : List A) (i : ℕ) (x : A) → get_elem? xs i ≡ some x → i < length xs
  get_elem?-length [] i x e = cc
  get_elem?-length (y ∷ xs) zero x e = omega arith
  get_elem?-length (y ∷ xs) (suc i) x e = omega (arith, get_elem?-length xs i x e)

module _ {ℓ κ} {A : Type ℓ} (P : A → Type κ) where
  pub All-get_elem? : (xs : List A) (i : ℕ) (x : A) → get_elem? xs i ≡ some x → All P xs → P x
  All-get_elem? [] i x e a = cc
  All-get_elem? (y ∷ xs) zero x e (p, a) = let same : y ≡ x = cc in subst P same p
  All-get_elem? (y ∷ xs) (suc i) x e (p, a) = All-get_elem? xs i x e a

  pub All-set : (xs : List A) (i : ℕ) (v : A) → P v → All P xs → All P (set xs i v)
  All-set [] i v h a = tt
  All-set (y ∷ xs) zero v h (p, a) = (h, a)
  All-set (y ∷ xs) (suc i) v h (p, a) = (p, All-set xs i v h a)

  pub All-snoc : (xs : List A) (v : A) → P v → All P xs → All P (xs ++ v ∷ [])
  All-snoc [] v h a = (h, tt)
  All-snoc (y ∷ xs) v h (p, a) = (p, All-snoc xs v h a)

  pub All-pick :
      (k : ℕ) (xs : List A) (y : A) (ys : List A)
      → pick k xs ≡ some (y, ys)
      → All P xs
      → P y × All P ys
  All-pick k [] y ys e a = cc
  All-pick zero (x ∷ xs) y ys e (p, a) =
      let head : x ≡ y = cc in let tail : xs ≡ ys = cc in (subst P head p, subst (All P) tail a)
  All-pick (suc k) (x ∷ xs) y ys e (p, a) = elim (Option-cases (pick k xs)) [
    | inl gone ↦ cc
    | inr ((z, zs), found) ↦
        let picked : Option (A × List A) = some (z, x ∷ zs) in
        let e' : picked ≡ some (y, ys) = rw (← e, found) refl in
        let head : z ≡ y = cc in
        let tail : x ∷ zs ≡ ys = cc in
        let (q, b) = All-pick k xs z zs found a in (subst P head q, subst (All P) tail (p, b))
  ]
