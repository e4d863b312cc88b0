-- ===== src/Rewards/Tape.antt =====
-- `Rewards.Tape` (rewards.go): it terminates, and reading the tape gives the rewards back.
use trpo.Prelude.{
  ℕ, zero, suc, ◌+◌, ◌-◌, ◌≤◌, ◌<◌, ◌≡◌, refl, ap, ap₂, subst, List, [], ◌∷◌, ◌++◌, map, true,
  false, none, some, arith, length, concat, length-append, get_elem?, take, replicate, Option-cases,
  inl, inr,
}
use trpo.Prelude.Failure.{ok}
use trpo.Rewards.{Rewards, Batch, batch_at, tape_from, tape, distribute, collect}

module _ {F : Type 0} where
  take-get_elem? :
      (seq : List F) (t : ℕ) (x : F)
      → get_elem? seq t ≡ some x
      → take (suc t) seq ≡ take t seq ++ (x ∷ [])
  take-get_elem? [] t x e = cc
  take-get_elem? (y ∷ seq) zero x e = ground arith
  take-get_elem? (y ∷ seq) (suc t) x e = ap (◌∷◌ y) (take-get_elem? seq t x e)

  take-get_elem?-none :
      (seq : List F) (t : ℕ)
      → get_elem? seq t ≡ none
      → (take (suc t) seq ≡ take t seq) × (take t seq ≡ seq)
  take-get_elem?-none [] zero e = (refl, refl)
  take-get_elem?-none [] (suc t) e = (refl, refl)
  take-get_elem?-none (y ∷ seq) zero e = cc
  take-get_elem?-none (y ∷ seq) (suc t) e =
      let r = take-get_elem?-none seq t e in (ap (◌∷◌ y) r.0, ap (◌∷◌ y) r.1)

  batch_at_absent :
      (t : ℕ) (seq : List F) (r : Rewards F)
      → get_elem? seq t ≡ none
      → batch_at t (seq ∷ r)
        ≡ record { packed = (batch_at t r).packed; present = false ∷ (batch_at t r).present }
  unfolding batch_at
  batch_at_absent t seq r e = rw (e, batch_at)

  batch_at_present :
      (t : ℕ) (seq : List F) (r : Rewards F) (x : F)
      → get_elem? seq t ≡ some x
      → batch_at t (seq ∷ r)
        ≡ record { packed = x ∷ (batch_at t r).packed; present = true ∷ (batch_at t r).present }
  unfolding batch_at
  batch_at_present t seq r x e = rw (e, batch_at)

  distribute-batch_at :
      (t : ℕ) (r : Rewards F)
      → distribute (map (take t) r) (batch_at t r).present (batch_at t r).packed
        ≡ ok (map (take (suc t)) r)
  unfolding distribute
  distribute-batch_at t [] = unfold batch_at in refl
  distribute-batch_at t (seq ∷ r) = elim (Option-cases (get_elem? seq t)) [
    | inl e ↦
        rw (batch_at_absent t seq r e, (take-get_elem?-none seq t e).0)
          (rw (distribute-batch_at t r))
    | inr (x, e) ↦
        rw (batch_at_present t seq r x e, take-get_elem? seq t x e) (rw (distribute-batch_at t r))
  ]

  -- The rewards from the step `t` on.
  abbrev left : ℕ → Rewards F → ℕ
  left t [] = 0
  left t (seq ∷ r) = (length seq - t) + left t r

  get_elem?-lt : (seq : List F) (t : ℕ) (x : F) → get_elem? seq t ≡ some x → t < length seq
  get_elem?-lt [] t x e = cc
  get_elem?-lt (y ∷ seq) zero x e = omega arith
  get_elem?-lt (y ∷ seq) (suc t) x e = omega (arith, get_elem?-lt seq t x e)

  get_elem?-le : (seq : List F) (t : ℕ) → get_elem? seq t ≡ none → length seq ≤ t
  get_elem?-le [] t e = omega arith
  get_elem?-le (y ∷ seq) zero e = cc
  get_elem?-le (y ∷ seq) (suc t) e = omega (arith, get_elem?-le seq t e)

  left-batch_at : (t : ℕ) (r : Rewards F) → left (t + 1) r + length (batch_at t r).packed ≡ left t r
  left-batch_at t [] = unfold batch_at in refl
  left-batch_at t (seq ∷ r) = elim (Option-cases (get_elem? seq t)) [
    | inl e ↦
        rw (batch_at_absent t seq r e) (omega (arith, left-batch_at t r, get_elem?-le seq t e))
    | inr (x, e) ↦
        rw (batch_at_present t seq r x e) (omega (arith, left-batch_at t r, get_elem?-lt seq t x e))
  ]

  -- A round that finds nothing stands past the end of every sequence.
  map-take_end : (t : ℕ) (r : Rewards F) → (batch_at t r).packed ≡ [] → map (take t) r ≡ r
  map-take_end t [] h = refl
  map-take_end t (seq ∷ r) h = elim (Option-cases (get_elem? seq t)) [
    | inl e ↦
        ap₂ ◌∷◌ (take-get_elem?-none seq t e).1
          (map-take_end t r (rw (batch_at_absent t seq r e) at h))
    | inr (x, e) ↦ cc (rw (batch_at_present t seq r x e) at h)
  ]

  tape_from-next :
      (fuel t : ℕ) (r : Rewards F) (x : F) (xs : List F) (bs : List (Batch F))
      → (batch_at t r).packed ≡ x ∷ xs
      → tape_from fuel (t + 1) r ≡ some bs
      → tape_from (suc fuel) t r ≡ some (batch_at t r ∷ bs)
  unfolding tape_from
  tape_from-next fuel t r x xs bs e f = ground arith

  collect-next :
      (t : ℕ) (r : Rewards F) (bs : List (Batch F))
      → collect (map (take (t + 1)) r) bs ≡ ok r
      → collect (map (take t) r) (batch_at t r ∷ bs) ≡ ok r
  collect-next t r bs h =
      unfold collect in
      rw (distribute-batch_at t r)
        (subst (λ n. collect (map (take n) r) bs ≡ ok r) {x = t + 1} {y = suc t} (omega arith) h)

  -- With fuel for the rewards that are left the loop returns, and what it writes can be read back.
  record IsRead (fuel t : ℕ) (r : Rewards F) : Type 0 where
    written : List (Batch F)
    returned : tape_from fuel t r ≡ some written
    read : collect (map (take t) r) written ≡ ok r

  tape_from-IsRead : (fuel t : ℕ) (r : Rewards F) → left t r < fuel → IsRead fuel t r
  tape_from-IsRead zero t r h = absurd (omega arith)
  tape_from-IsRead (suc fuel) t r h =
      next (batch_at t r).packed refl (tape_from-IsRead fuel (t + 1) r)
    where
      next :
          (xs : List F)
          → (batch_at t r).packed ≡ xs
          → (left (t + 1) r < fuel → IsRead fuel (t + 1) r)
          → IsRead (suc fuel) t r
      next [] e later = record {
        written = [];
        returned = unfold tape_from in rw (e, tape_from);
        read = unfold collect in ap ok (map-take_end t r e);
      }
      next (x ∷ xs) e later =
          let found = ap length e in
          let rest = later (omega (arith, left-batch_at t r, found)) in
          record {
            written = batch_at t r ∷ rest.written;
            returned = tape_from-next fuel t r x xs rest.written e rest.returned;
            read = collect-next t r rest.written rest.read;
          }

  left-zero : (r : Rewards F) → left 0 r ≡ length (concat r)
  left-zero [] = refl
  left-zero (seq ∷ r) = omega (arith, left-zero r, length-append seq (concat r))

  map-take_zero : (r : Rewards F) → map (take 0) r ≡ replicate (length r) []
  map-take_zero [] = refl
  map-take_zero (seq ∷ r) = ap (◌∷◌ []) (map-take_zero r)

  -- `Tape` terminates for all rewards, and the loop that reads a tape into empty sequences, one for
  -- each episode, gives the same rewards back, with no index out of range.
  pub collect-tape :
      (r : Rewards F)
      → (bs : List (Batch F)) × (tape r ≡ some bs) × (collect (replicate (length r) []) bs ≡ ok r)
  unfolding tape
  collect-tape r =
      let found = tape_from-IsRead (suc (length (concat r))) 0 r (omega (arith, left-zero r)) in
      (
        found.written,
        found.returned,
        subst (λ v. collect v found.written ≡ ok r) (map-take_zero r) found.read,
      )
