-- ===== src/ActionSpace/OneHot.antt =====
-- `sampleProbabilities` (action_space.go): the index that a draw falls on, as a one-hot vector.
use trpo.Prelude.{
  ℕ, zero, suc, ◌+◌, ◌-◌, ◌<◌, ◌≡◌, ◌⊎◌, refl, ap, ◌∙◌, List, [], ◌∷◌, ◌++◌, Bool, true, false,
  length, length-append, set, replicate, ◌==◌, if◌then◌else◌, Bool-cases, inl, inr, arith,
}
use trpo.Prelude.Float.{Float}
use trpo.Prelude.Failure.{ok}
use trpo.ActionSpace.{pick, sample_probabilities}

set-between {ℓ} :
    {A : Type ℓ} (a b n : ℕ) (z v : A)
    → n ≡ a + suc b
    → set (replicate n z) a v ≡ replicate a z ++ (v ∷ replicate b z)
set-between a b zero z v e = absurd (omega arith)
set-between zero b (suc n) z v e =
    let same : n ≡ b = omega arith in ap (λ k. v ∷ replicate k z) same
set-between (suc a) b (suc n) z v e = ap (◌∷◌ z) (set-between a b n z v (omega arith))

not_empty : (n : ℕ) → 0 < n → (n == 0) ≡ false
not_empty n h = ground arith

module _ {F : Type 0} ⦃fl : Float F⦄ where
  open fl use {of_ℕ, minus, below}

  -- What is left of a draw after some probabilities.
  abbrev pub left_over : F → List F → F
  left_over draw [] = draw
  left_over draw (x ∷ xs) = left_over (minus draw x) xs

  -- No probability of a list takes the draw below 0.
  abbrev pub none_below : F → List F → Bool
  none_below draw [] = true
  none_below draw (x ∷ xs) =
      if below (minus draw x) (of_ℕ 0) then false else none_below (minus draw x) xs

  -- The draw falls on the element between `before` and `after`.
  pub record FallsOn (draw : F) (before : List F) (x : F) (after : List F) : Type 0 where
    pub not_before : none_below draw before ≡ true
    pub here_or_last : (below (left_over draw (before ++ (x ∷ []))) (of_ℕ 0) ≡ true) ⊎ (after ≡ [])

  later :
      (draw y : F) (before : List F) (x : F) (after : List F)
      → below (minus draw y) (of_ℕ 0) ≡ false
      → FallsOn (minus draw y) before x after
      → FallsOn draw (y ∷ before) x after
  later draw y before x after e f = record {
    not_before = rw e f.not_before;
    here_or_last = f.here_or_last;
  }

  pick-FallsOn :
      (draw : F) (i last : ℕ) (y : F) (p : List F)
      → last ≡ i + length p
      → (before : List F) × (x : F) × (after : List F) × (y ∷ p ≡ before ++ x ∷ after)
        × FallsOn draw before x after
        × (pick last draw i (y ∷ p) ≡ i + length before)
  unfolding pick
  pick-FallsOn draw i last y [] e = elim (Bool-cases (below (minus draw y) (of_ℕ 0))) [
    | inl hit ↦ (
      [],
      y,
      [],
      refl,
      record { not_before = refl; here_or_last = inr refl },
      rw (hit, pick) (omega arith),
    )
    | inr miss ↦ (
      [],
      y,
      [],
      refl,
      record { not_before = refl; here_or_last = inr refl },
      rw (miss, pick) (omega arith),
    )
  ]
  pick-FallsOn draw i last y (z ∷ p) e = elim (Bool-cases (below (minus draw y) (of_ℕ 0))) [
    | inl hit ↦ (
      [],
      y,
      z ∷ p,
      refl,
      record { not_before = refl; here_or_last = inl hit },
      rw (hit, pick) (omega arith),
    )
    | inr miss ↦
        let (before, x, after, split, falls, at_index) =
          pick-FallsOn (minus draw y) (i + 1) last z p (omega arith) in
        (
          y ∷ before,
          x,
          after,
          ap (◌∷◌ y) split,
          later draw y before x after miss falls,
          rw (miss, pick) (at_index ∙ omega arith),
        )
  ]

  sampled :
      (draw : F) (p : List F) (i : ℕ)
      → 0 < length p
      → pick (length p - 1) draw 0 p ≡ i
      → sample_probabilities draw p ≡ ok (set (replicate (length p) (of_ℕ 0)) i (of_ℕ 1))
  unfolding sample_probabilities
  sampled draw p i pos e =
      rw (not_empty (length p) pos)
        (ap (λ k. ok (set (replicate (length p) (of_ℕ 0)) k (of_ℕ 1))) e)

  -- For at least one probability `sampleProbabilities` returns a vector of the same length with a 1 at one
  -- index and 0 at all others. The index is the first at which the probabilities up to it exceed the draw,
  -- and the last one if there is none.
  pub sample_probabilities-FallsOn :
      (draw y : F) (p : List F)
      → (before : List F) × (x : F) × (after : List F) × (y ∷ p ≡ before ++ x ∷ after)
        × FallsOn draw before x after
        × (sample_probabilities draw (y ∷ p)
            ≡ ok (
                replicate (length before) (of_ℕ 0) ++ (of_ℕ 1 ∷ replicate (length after) (of_ℕ 0))))
  unfolding sample_probabilities
  sample_probabilities-FallsOn draw y p =
      let (before, x, after, split, falls, at_index) =
        pick-FallsOn draw 0 (length p) y p (omega arith) in
      let last_index : length (y ∷ p) - 1 ≡ length p = omega arith in
      let size : length (y ∷ p) ≡ length before + suc (length after) =
        omega (arith, ap length split, length-append before (x ∷ after)) in
      (
        before,
        x,
        after,
        split,
        falls,
        sampled draw (y ∷ p) (length before) (omega arith)
              (ap (λ d. pick d draw 0 (y ∷ p)) last_index ∙ at_index ∙ omega arith)
            ∙ ap ok (
                set-between (length before) (length after) (length (y ∷ p)) (of_ℕ 0) (of_ℕ 1) size),
      )
