-- ===== src/Master/Pool.antt =====
-- The pool of slaves (anyes/master.go) and the slots below it: sums over slaves, for the counts that
-- `assignJobs` and `removeSlave` are measured by.
use trpo.Prelude.{
  ℕ, zero, suc, ◌+◌, ◌≤◌, ◌<◌, ◌≡◌, refl, List, [], ◌∷◌, ◌++◌, map, true, false, Option, none, some,
  arith, length, set, take, ◌==◌, ltb, if◌then◌else◌,
}
use trpo.Master.{Managed, slot, present}

-- A sum over a list.
abbrev pub total {ℓ} : {A : Type ℓ} → (A → ℕ) → List A → ℕ
total w [] = 0
total w (x ∷ xs) = w x + total w xs

pub total-append {ℓ} :
    {A : Type ℓ} (w : A → ℕ) (xs ys : List A) → total w (xs ++ ys) ≡ total w xs + total w ys
total-append w [] ys = omega arith
total-append w (x ∷ xs) ys = omega (arith, total-append w xs ys)

-- 1 for a slave of the number `k`.
abbrev pub is_slave : ℕ → Managed → ℕ
is_slave k m = if m.id == k then 1 else 0

-- The weight of the slaves other than `k`.
abbrev pub other_than : ℕ → (Managed → ℕ) → Managed → ℕ
other_than k w m = if m.id == k then 0 else w m

-- The number of slaves with the number `k`.
abbrev pub occurrences : ℕ → List Managed → ℕ
occurrences k = total (is_slave k)

-- The weight of a slot.
abbrev pub held : (Managed → ℕ) → Option Managed → ℕ
held w none = 0
held w (some s) = w s

pub total-present :
    (w : Managed → ℕ) (slots : List (Option Managed))
    → total w (present slots) ≡ total (held w) slots
total-present w [] = refl
total-present w (none ∷ slots) = omega (arith, total-present w slots)
total-present w (some s ∷ slots) = omega (arith, total-present w slots)

pub total-held :
    (w : Managed → ℕ) (slaves : List Managed) → total (held w) (map some slaves) ≡ total w slaves
total-held w [] = refl
total-held w (s ∷ slaves) = omega (arith, total-held w slaves)

pub total-set :
    (w : Managed → ℕ) (slots : List (Option Managed)) (i : ℕ) (x : Option Managed)
    → i < length slots
    → total (held w) (set slots i x) + held w (slot slots i) ≡ total (held w) slots + held w x
total-set w [] i x l = absurd (omega arith)
total-set w (y ∷ slots) zero x l = omega arith
total-set w (y ∷ slots) (suc i) x l = omega (arith, total-set w slots i x (omega arith))

pub slot-set_same :
    (slots : List (Option Managed)) (i : ℕ) (x : Option Managed)
    → i < length slots
    → slot (set slots i x) i ≡ x
slot-set_same [] i x l = absurd (omega arith)
slot-set_same (y ∷ slots) zero x l = refl
slot-set_same (y ∷ slots) (suc i) x l = slot-set_same slots i x (omega arith)

-- Writing what slot `j` holds to another slot leaves what slot `j` holds.
pub slot-set_copy :
    (slots : List (Option Managed)) (i j : ℕ)
    → i < length slots
    → slot (set slots i (slot slots j)) j ≡ slot slots j
slot-set_copy [] i j l = absurd (omega arith)
slot-set_copy (y ∷ slots) zero zero l = refl
slot-set_copy (y ∷ slots) zero (suc j) l = refl
slot-set_copy (y ∷ slots) (suc i) zero l = refl
slot-set_copy (y ∷ slots) (suc i) (suc j) l = slot-set_copy slots i j (omega arith)

pub slot-held :
    (w : Managed → ℕ) (slots : List (Option Managed)) (i : ℕ)
    → held w (slot slots i) ≤ total (held w) slots
slot-held w [] i = omega arith
slot-held w (y ∷ slots) zero = omega arith
slot-held w (y ∷ slots) (suc i) = omega (arith, slot-held w slots i)

pub total-take_last :
    (w : Managed → ℕ) (slots : List (Option Managed)) (n : ℕ)
    → suc n ≡ length slots
    → total (held w) (take n slots) + held w (slot slots n) ≡ total (held w) slots
total-take_last w [] n e = absurd (omega arith)
total-take_last w (y ∷ []) zero e = omega arith
total-take_last w (y ∷ z ∷ slots) zero e = absurd (omega arith)
total-take_last w (y ∷ slots) (suc n) e = omega (arith, total-take_last w slots n (omega arith))

-- A weight is that of the others where the slave does not occur.
pub others :
    (w : Managed → ℕ) (target : ℕ) (slots : List (Option Managed))
    → total (held (is_slave target)) slots ≡ 0
    → total (held (other_than target w)) slots ≡ total (held w) slots
others w target [] h = refl
others w target (none ∷ slots) h = omega (arith, others w target slots (omega arith))
others w target (some s ∷ slots) h = ground (arith, others w target slots)

pub is_slave_same : (k : ℕ) (s : Managed) → (s.id == k) ≡ true → is_slave k s ≡ 1
is_slave_same k s e = rw e refl

pub is_slave_other : (k : ℕ) (s : Managed) → (s.id == k) ≡ false → is_slave k s ≡ 0
is_slave_other k s e = rw e refl

pub other_than_same :
    (k : ℕ) (w : Managed → ℕ) (s : Managed) → (s.id == k) ≡ true → other_than k w s ≡ 0
other_than_same k w s e = rw e refl

-- How often a number may be in use, if those from `fresh` on are not.
abbrev pub room : ℕ → ℕ → ℕ
room k fresh = if ltb k fresh then 1 else 0

-- 1 for the number `k`.
abbrev pub is_number : ℕ → ℕ → ℕ
is_number k j = if j == k then 1 else 0
