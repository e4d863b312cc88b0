-- ===== src/Master/Stale.antt =====
-- Counts of the slaves of a master (anyes/master.go) that have not got a version.
use trpo.Prelude.{
  ℕ, suc, ◌≤◌, ◌≡◌, refl, List, [], ◌∷◌, ◌++◌, true, false, ◌==◌, if◌then◌else◌, eq→==, arith,
}
use trpo.Master.{Managed, remove_slave}
use trpo.Master.Pool.{is_number, total, occurrences, is_slave, room}
use trpo.Master.Removal.{total-remove_slave}
use trpo.Master.Conserved.{total-snoc}
use trpo.Master.Counts.{others_less, is_slave_here, is_slave_apart}
use trpo.Master.Update.{Ending, local_update, slave_update, set_version}

-- 1 for a slave of the number `k` whose version is not `v`.
abbrev pub stale : ℕ → ℕ → Managed → ℕ
stale v k m = if m.version == v then 0 else is_slave k m

-- 1 for the end of the goroutine of the slave `k`.
abbrev pub ends : ℕ → Ending → ℕ
ends k local_update = 0
ends k (slave_update j) = is_number k j

pub same_version : (v : ℕ) → (v == v) ≡ true
same_version v = eq→== v v refl

pub stale_less : (v k : ℕ) (pool : List Managed) → total (stale v k) pool ≤ occurrences k pool
stale_less v k [] = omega arith
stale_less v k (m ∷ pool) = ground (arith, stale_less v k pool)

pub occurrences-set_version :
    (k j v : ℕ) (pool : List Managed) → occurrences k (set_version j v pool) ≡ occurrences k pool
occurrences-set_version k j v [] = refl
occurrences-set_version k j v (m ∷ pool) = ground (arith, occurrences-set_version k j v pool)

pub stale-set_version_same :
    (k v : ℕ) (pool : List Managed) → total (stale v k) (set_version k v pool) ≡ 0
stale-set_version_same k v [] = refl
stale-set_version_same k v (m ∷ pool) =
    ground (arith, stale-set_version_same k v pool, same_version v)

pub stale-set_version_less :
    (k j v : ℕ) (pool : List Managed)
    → total (stale v k) (set_version j v pool) ≤ total (stale v k) pool
stale-set_version_less k j v [] = omega arith
stale-set_version_less k j v (m ∷ pool) =
    ground (arith, stale-set_version_less k j v pool, same_version v)

pub stale-remove :
    (v j k : ℕ) (pool : List Managed)
    → occurrences j pool ≤ 1
    → total (stale v k) (remove_slave j pool) ≤ total (stale v k) pool
stale-remove v j k pool h =
    omega (arith, total-remove_slave (stale v k) j pool h, others_less j (stale v k) pool)

-- What an addition to the pool does.
pub added_here :
    (k : ℕ) (pool : List Managed) (m : Managed)
    → (m.id == k) ≡ true
    → occurrences k (pool ++ (m ∷ [])) ≡ suc (occurrences k pool)
added_here k pool m e = omega (arith, total-snoc (is_slave k) pool m, is_slave_here k m e)

pub added_apart :
    (k : ℕ) (pool : List Managed) (m : Managed)
    → (m.id == k) ≡ false
    → occurrences k (pool ++ (m ∷ [])) ≡ occurrences k pool
added_apart k pool m e = omega (arith, total-snoc (is_slave k) pool m, is_slave_apart k m e)

pub stale-added :
    (v k : ℕ) (pool : List Managed) (m : Managed)
    → m.version ≡ v
    → total (stale v k) (pool ++ (m ∷ [])) ≡ total (stale v k) pool
stale-added v k pool m e = omega (arith, total-snoc (stale v k) pool m, current v k m e)
  where
    current : (v k : ℕ) (m : Managed) → m.version ≡ v → stale v k m ≡ 0
    current v k m e = rw (eq→== m.version v e) refl

pub room-new : (k fresh : ℕ) → (fresh == k) ≡ true → (room k fresh ≡ 0) × (room k (suc fresh) ≡ 1)
room-new k fresh e = (ground arith, ground arith)

pub room-grows : (k fresh : ℕ) → room k fresh ≤ room k (suc fresh)
room-grows k fresh = ground arith

pub room_less : (k fresh : ℕ) → room k fresh ≤ 1
room_less k fresh = ground arith
