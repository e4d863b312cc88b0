-- ===== src/Master/Counts.antt =====
-- Counts of slaves by their number, in the goroutines and in the pool of a master (anyes/master.go), and
-- what the operations on the pool do to them.
use trpo.Prelude.{
  ℕ, suc, ◌≤◌, ◌≡◌, ◌⊎◌, refl, ap, ◌∙◌, List, [], ◌∷◌, true, false, arith, ◌==◌, ltb, if◌then◌else◌,
  Bool-cases, inl, inr, ==→eq,
}
use trpo.Master.{Managed, remove_slave}
use trpo.Master.Pool.{is_number, total, occurrences, is_slave, other_than}
use trpo.Master.Removal.{total-remove_slave}
use trpo.Master.Assigning.{idle}
use trpo.Master.Rounds.{set_idle}

-- The room for uses of a number: none before it is given to a slave.
abbrev pub given : ℕ → ℕ → ℕ
given k fresh = if ltb k fresh then 2 else 0

pub set_idle-same :
    (k : ℕ) (pool : List Managed) → total (idle k) (set_idle k pool) ≡ occurrences k pool
set_idle-same k [] = refl
set_idle-same k (m ∷ pool) = ground (arith, set_idle-same k pool)

pub set_idle-other :
    (j k : ℕ) (pool : List Managed)
    → (j == k) ≡ false
    → total (idle k) (set_idle j pool) ≡ total (idle k) pool
set_idle-other j k [] h = refl
set_idle-other j k (m ∷ pool) h = ground (arith, set_idle-other j k pool h)

pub occurrences-set_idle :
    (j k : ℕ) (pool : List Managed) → occurrences k (set_idle j pool) ≡ occurrences k pool
occurrences-set_idle j k [] = refl
occurrences-set_idle j k (m ∷ pool) = ground (arith, occurrences-set_idle j k pool)

pub others_none : (k : ℕ) (pool : List Managed) → total (other_than k (is_slave k)) pool ≡ 0
others_none k [] = refl
others_none k (m ∷ pool) = ground (arith, others_none k pool)

pub others_less :
    (j : ℕ) (w : Managed → ℕ) (pool : List Managed) → total (other_than j w) pool ≤ total w pool
others_less j w [] = omega arith
others_less j w (m ∷ pool) = ground (arith, others_less j w pool)

pub others_apart :
    (j k : ℕ) (pool : List Managed)
    → (j == k) ≡ false
    → total (other_than j (is_slave k)) pool ≡ occurrences k pool
others_apart j k [] h = refl
others_apart j k (m ∷ pool) h = ground (arith, others_apart j k pool h)

pub is_number-same : (k j : ℕ) → (j == k) ≡ true → is_number k j ≡ 1
is_number-same k j e = rw e refl

pub is_number-other : (k j : ℕ) → (j == k) ≡ false → is_number k j ≡ 0
is_number-other k j e = rw e refl

pub given-grows : (k fresh : ℕ) → given k fresh ≤ given k (suc fresh)
given-grows k fresh = ground arith

pub given-none_or_two : (k fresh : ℕ) → (given k fresh ≡ 0) ⊎ (given k fresh ≡ 2)
given-none_or_two k fresh = elim (Bool-cases (ltb k fresh)) [
  | inl e ↦ inr (rw e refl)
  | inr e ↦ inl (rw e refl)
]

pub idle_less : (k : ℕ) (pool : List Managed) → total (idle k) pool ≤ occurrences k pool
idle_less k [] = omega arith
idle_less k (m ∷ pool) = ground (arith, idle_less k pool)

pub given-new :
    (k fresh : ℕ) → (fresh == k) ≡ true → (given k fresh ≡ 0) × (given k (suc fresh) ≡ 2)
given-new k fresh e = (ground arith, ground arith)

pub is_slave_here : (k : ℕ) (m : Managed) → (m.id == k) ≡ true → is_slave k m ≡ 1
is_slave_here k m e = rw e refl

pub is_slave_apart : (k : ℕ) (m : Managed) → (m.id == k) ≡ false → is_slave k m ≡ 0
is_slave_apart k m e = rw e refl

-- What `removeSlave` does to the two counts of the pool.
pub idle-remove :
    (j k : ℕ) (pool : List Managed)
    → occurrences j pool ≤ 1
    → total (idle k) (remove_slave j pool) ≤ total (idle k) pool
idle-remove j k pool h =
    omega (arith, total-remove_slave (idle k) j pool h, others_less j (idle k) pool)

pub occurrences-remove :
    (j k : ℕ) (pool : List Managed)
    → occurrences j pool ≤ 1
    → occurrences k (remove_slave j pool) ≤ occurrences k pool
occurrences-remove j k pool h =
    omega (arith, total-remove_slave (is_slave k) j pool h, others_less j (is_slave k) pool)

pub occurrences-remove_same :
    (j k : ℕ) (pool : List Managed)
    → (j == k) ≡ true
    → occurrences j pool ≤ 1
    → occurrences k (remove_slave j pool) ≡ 0
occurrences-remove_same j k pool e h =
    let same : j ≡ k = ==→eq j k e in
    total-remove_slave (is_slave k) j pool h
    ∙ ap (λ x. total (other_than x (is_slave k)) pool) same
    ∙ others_none k pool
