-- ===== src/Master.antt =====
-- anyes/master.go: the master of evolution strategies, its pool of slaves and its jobs. A managed slave
-- is known by a number in place of its pointer; math/rand is a parameter.
pub mod Pool
pub mod Removal
pub mod Assigning
pub mod Rounds
pub mod Conserved
pub mod Outcome
pub mod Progress
pub mod Manned
pub mod Counts
pub mod Exclusive
pub mod Update
pub mod Stale
pub mod Versions
pub mod Scales
pub mod Adding
pub mod Agreeing
mod Tests
mod UpdateTests
mod ScaleTests
mod AddingTests
use trpo.Prelude.{
  ℕ, zero, suc, ◌+◌, ◌-◌, List, [], ◌∷◌, ◌++◌, map, Bool, true, false, not, ◌&&◌, Option, none,
  some, length, get_elem?, set, take, ltb, ◌==◌, if◌then◌else◌,
}
use trpo.Prelude.Float.{Float}

-- `scaleSeed`
pub record Job (F : Type 0) : Type 0 where
  pub scale : F
  pub seed : ℕ

pub record Rollout (F : Type 0) : Type 0 where
  pub scale : F
  pub seed : ℕ
  pub reward : F
  pub steps : ℕ
  pub early_stop : Bool

-- `managedSlave`
pub record Managed : Type 0 where
  pub id : ℕ
  pub version : ℕ
  pub working : Bool

-- `jobAssignment`
pub record Assignment (F : Type 0) : Type 0 where
  pub slave : ℕ
  pub job : Job F

-- The jobs of `Rollouts`: for each seed that `rand.Int63` gives, one with each sign.
unfoldable pub make_jobs : {F : Type 0} ⦃fl : Float F⦄ → F → List ℕ → List (Job F)
make_jobs stddev [] = []
make_jobs ⦃fl⦄ stddev (seed ∷ seeds) =
    let minus_one = fl.minus (fl.of_ℕ 0) (fl.of_ℕ 1) in
    record { scale = fl.times minus_one stddev; seed = seed }
    ∷ record { scale = fl.times (fl.of_ℕ 1) stddev; seed = seed }
    ∷ make_jobs stddev seeds

-- The loop of `assignJobs` over a permutation of the indices; `none` is an index out of range. It gives
-- the assignments, the slaves and the jobs that are left.
unfoldable pub assign_jobs :
    {F : Type 0}
    → List ℕ
    → List Managed
    → List (Job F)
    → Option (List (Assignment F) × List Managed × List (Job F))
assign_jobs [] slaves jobs = some ([], slaves, jobs)
assign_jobs (i ∷ perm) slaves [] = elim (get_elem? slaves i) [
  | none ↦ none
  | some s ↦ if s.working then assign_jobs perm slaves [] else some ([], slaves, [])
]
assign_jobs (i ∷ perm) slaves (job ∷ jobs) = elim (get_elem? slaves i) [
  | none ↦ none
  | some s ↦
      if s.working
      then assign_jobs perm slaves (job ∷ jobs)
      else elim (assign_jobs perm (set slaves i (record s { working = true })) jobs) [
        | none ↦ none
        | some (res, slaves', jobs') ↦
            some (record { slave = s.id; job = job } ∷ res, slaves', jobs')
      ]
]

-- A slot of the array below `m.slaves`, as an index expression reads it: `nil` past the end.
abbrev pub slot : List (Option Managed) → ℕ → Option Managed
slot slots i = elim (get_elem? slots i) [ none ↦ none | some s ↦ s ]

-- The loop of `removeSlave` over the slots that the slice had at its start, with the rounds that are
-- left: the slots and the length of the slice.
unfoldable pub remove_loop : ℕ → ℕ → ℕ → List (Option Managed) → ℕ → List (Option Managed) × ℕ
remove_loop target zero i slots len = (slots, len)
remove_loop target (suc left) i slots len = elim (slot slots i) [
  | none ↦ remove_loop target left (i + 1) slots len
  | some s ↦
      if s.id == target
      then remove_loop target left (i + 1) (set (set slots i (slot slots (len - 1))) (len - 1) none)
          (len - 1)
      else remove_loop target left (i + 1) slots len
]

-- The slaves in the first slots.
abbrev pub present : List (Option Managed) → List Managed
present [] = []
present (none ∷ slots) = present slots
present (some s ∷ slots) = s ∷ present slots

unfoldable pub remove_slave : ℕ → List Managed → List Managed
unfolding remove_loop
remove_slave target slaves =
    let (slots, len) = remove_loop target (length slaves) 0 (map some slaves) (length slaves) in
    present (take len slots)
