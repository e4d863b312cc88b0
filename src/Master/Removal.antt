-- ===== src/Master/Removal.antt =====
-- The loop of `removeSlave` (anyes/master.go): what it does to any sum over the pool.
use trpo.Prelude.{
  ℕ, zero, suc, ◌+◌, ◌-◌, ◌≤◌, ◌<◌, ◌≡◌, refl, ap, sym, subst, ◌∙◌, List, [], ◌∷◌, map, true, false,
  Option, none, some, arith, length, length-map, length-set, set, take, drop, ◌==◌, Bool-cases,
  Option-cases, inl, inr, drop_all,
}
use trpo.Master.{Managed, slot, remove_loop, present, remove_slave}
use trpo.Master.Pool.{
  total, occurrences, is_slave, other_than, held, total-present, total-held, total-set,
  slot-set_same, slot-set_copy, slot-held, total-take_last, others, is_slave_same, is_slave_other,
  other_than_same,
}

-- A round that leaves the slaves as they are.
loop-none :
    (target left i : ℕ) (slots : List (Option Managed)) (len : ℕ)
    → slot slots i ≡ none
    → remove_loop target (suc left) i slots len ≡ remove_loop target left (i + 1) slots len
unfolding remove_loop
loop-none target left i slots len e = rw (e, remove_loop) refl

loop-other :
    (target left i : ℕ) (slots : List (Option Managed)) (len : ℕ) (s : Managed)
    → slot slots i ≡ some s
    → (s.id == target) ≡ false
    → remove_loop target (suc left) i slots len ≡ remove_loop target left (i + 1) slots len
unfolding remove_loop
loop-other target left i slots len s e d = rw (e, d, remove_loop) refl

-- What the round at the slave to be removed makes of the slots.
abbrev swapped : List (Option Managed) → ℕ → ℕ → List (Option Managed)
swapped slots i last = set (set slots i (slot slots last)) last none

loop-hit :
    (target left i : ℕ) (slots : List (Option Managed)) (len : ℕ) (s : Managed)
    → slot slots i ≡ some s
    → (s.id == target) ≡ true
    → remove_loop target (suc left) i slots len
      ≡ remove_loop target left (i + 1) (swapped slots i (len - 1)) (len - 1)
unfolding remove_loop
loop-hit target left i slots len s e d = rw (e, d, remove_loop) refl

absent_loop :
    (target left i : ℕ) (slots : List (Option Managed)) (len : ℕ)
    → total (held (is_slave target)) slots ≡ 0
    → remove_loop target left i slots len ≡ (slots, len)
unfolding remove_loop
absent_loop target zero i slots len h = refl
absent_loop target (suc left) i slots len h =
    let rest = absent_loop target left (i + 1) slots len h in
    elim (Option-cases (slot slots i)) [
      | inl e ↦ loop-none target left i slots len e ∙ rest
      | inr (s, e) ↦ elim (Bool-cases (s.id == target)) [
        | inl same ↦ absurd (
            omega (
              arith,
              slot-held (is_slave target) slots i,
              ap (held (is_slave target)) e,
              is_slave_same target s same,
            ))
        | inr other ↦ loop-other target left i slots len s e other ∙ rest
      ]
    ]

length-swapped :
    (slots : List (Option Managed)) (i last : ℕ) → length (swapped slots i last) ≡ length slots
length-swapped slots i last = length-set _ last none ∙ length-set slots i (slot slots last)

last-swapped :
    (slots : List (Option Managed)) (i last : ℕ)
    → last < length slots
    → slot (swapped slots i last) last ≡ none
last-swapped slots i last l =
    slot-set_same (set slots i (slot slots last)) last none
      (omega (arith, length-set slots i (slot slots last)))

-- The sums over the slots after a swap.
total-swapped :
    (w : Managed → ℕ) (slots : List (Option Managed)) (i last : ℕ)
    → i < length slots
    → last < length slots
    → total (held w) (swapped slots i last) + held w (slot slots i) ≡ total (held w) slots
total-swapped w slots i last l k =
    let first = total-set w slots i (slot slots last) l in
    let copied =
      total-set w (set slots i (slot slots last)) last none
        (omega (arith, length-set slots i (slot slots last))) in
    omega (arith, first, copied, ap (held w) (slot-set_copy slots i last l))

take_all : {A : Type 0} (xs : List A) → take (length xs) xs ≡ xs
take_all [] = refl
take_all (x ∷ xs) = ap (◌∷◌ x) (take_all xs)

drop-slot :
    (w : Managed → ℕ) (slots : List (Option Managed)) (i : ℕ)
    → i < length slots
    → total (held w) (drop i slots) ≡ held w (slot slots i) + total (held w) (drop (i + 1) slots)
drop-slot w [] i l = absurd (omega arith)
drop-slot w (x ∷ slots) zero l = refl
drop-slot w (x ∷ slots) (suc i) l =
    let next : suc (i + 1) ≡ suc i + 1 = omega arith in
    drop-slot w slots i (omega arith)
    ∙ ap (λ k. held w (slot slots i) + total (held w) (drop k (x ∷ slots))) next

-- What is within the slice after the loop.
abbrev kept : List (Option Managed) × ℕ → List (Option Managed)
kept r = take r.1 r.0

-- What the round at the slave to be removed leaves, if it occurs once.
total-hit :
    (w : Managed → ℕ) (target left i : ℕ) (slots : List (Option Managed)) (s : Managed)
    → i < length slots
    → total (held (is_slave target)) slots ≤ 1
    → slot slots i ≡ some s
    → (s.id == target) ≡ true
    → total (held w) (kept (remove_loop target (suc left) i slots (length slots)))
      ≡ total (held (other_than target w)) slots
total-hit w target left i slots s l once e same =
    let last = length slots - 1 in
    let rest = swapped slots i last in
    let at_hit = ap (held (is_slave target)) e ∙ is_slave_same target s same in
    let gone : total (held (is_slave target)) rest ≡ 0 =
      omega (arith, at_hit, total-swapped (is_slave target) slots i last l (omega arith)) in
    let ends =
      loop-hit target left i slots (length slots) s e same
      ∙ absent_loop target left (i + 1) rest last gone in
    let full : total (held w) (take last rest) ≡ total (held w) rest = omega (
      arith,
      total-take_last w rest last (omega (arith, length-swapped slots i last)),
      ap (held w) (last-swapped slots i last (omega arith)),
    ) in
    let skips = ap (held (other_than target w)) e ∙ other_than_same target w s same in
    let others_left = total-swapped (other_than target w) slots i last l (omega arith) in
    ap (λ r. total (held w) (kept r)) ends
    ∙ omega (arith, full, others w target rest gone, skips, others_left)

-- What the loop leaves within the slice has the weight of the other slaves, if the slave to be removed
-- occurs at most once, and not before the slot `i`.
total-remove_loop :
    (w : Managed → ℕ) (target left i : ℕ) (slots : List (Option Managed))
    → left + i ≡ length slots
    → total (held (is_slave target)) slots ≤ 1
    → total (held (is_slave target)) (drop i slots) ≡ total (held (is_slave target)) slots
    → total (held w) (kept (remove_loop target left i slots (length slots)))
      ≡ total (held (other_than target w)) slots
unfolding remove_loop
total-remove_loop w target zero i slots e once here =
    let at_end : i ≡ length slots = omega arith in
    let none_left : total (held (is_slave target)) slots ≡ 0 =
      sym here
      ∙ ap (λ k. total (held (is_slave target)) (drop k slots)) at_end
      ∙ ap (total (held (is_slave target))) (drop_all slots) in
    ap (total (held w)) (take_all slots) ∙ sym (others w target slots none_left)
total-remove_loop w target (suc left) i slots e once here =
    let l : i < length slots = omega arith in
    let first = drop-slot (is_slave target) slots i l in
    let next = total-remove_loop w target left (i + 1) slots (omega arith) once in
    elim (Option-cases (slot slots i)) [
      | inl n ↦
          ap (λ r. total (held w) (kept r)) (loop-none target left i slots (length slots) n)
          ∙ next (omega (arith, first, ap (held (is_slave target)) n))
      | inr (s, n) ↦ elim (Bool-cases (s.id == target)) [
        | inl same ↦ total-hit w target left i slots s l once n same
        | inr other ↦
            ap (λ r. total (held w) (kept r))
              (loop-other target left i slots (length slots) s n other)
            ∙ next
                (omega (arith, first, ap (held (is_slave target)) n, is_slave_other target s other))
      ]
    ]

length-held : (slaves : List Managed) → length (map some slaves) ≡ length slaves
length-held slaves = length-map some slaves

-- `removeSlave` of a slave that occurs at most once leaves the other slaves: for every weight, what is
-- left has the weight of the others.
pub total-remove_slave :
    (w : Managed → ℕ) (target : ℕ) (slaves : List Managed)
    → occurrences target slaves ≤ 1
    → total w (remove_slave target slaves) ≡ total (other_than target w) slaves
unfolding remove_slave
total-remove_slave w target slaves once =
    let slots : List (Option Managed) = map some slaves in
    let once' : total (held (is_slave target)) slots ≤ 1 =
      omega (arith, total-held (is_slave target) slaves) in
    let left_over = total-remove_loop w target (length slots) 0 slots (omega arith) once' refl in
    subst
      (λ n.
        total w (present (kept (remove_loop target n 0 slots n)))
        ≡ total (other_than target w) slaves)
      (length-held slaves) (total-present w _ ∙ left_over ∙ total-held (other_than target w) slaves)
