-- ===== src/Master/Rounds.antt =====
-- `Rollouts` (anyes/master.go) as a step relation: the main loop, the goroutine of each assignment, the
-- channels, and `AddSlave`, which other goroutines may call at any time. What a slave does is its own:
-- a run ends with a rollout for its job or with an error.
use trpo.Prelude.{
  zero, ℕ, suc, ◌≤◌, ◌<◌, ◌≡◌, List, [], ◌∷◌, ◌++◌, Bool, true, false, Option, none, some, length,
  All, ◌==◌, if◌then◌else◌,
}
use trpo.Prelude.Failure.{Error}
use trpo.Master.Pool.{total, is_number}
use trpo.Master.{Managed, Job, Rollout, Assignment, assign_jobs, remove_slave}

-- Where the call of `Rollouts` stands: before the test of its loop, at its `select`, reading what is left
-- in the channel of results after an error, returned from the end, or returned after an error.
pub data Phase : Type 0 where
  looping : Phase
  selecting : Phase
  draining : Error → Phase
  finished : Option Error → Phase
  stopped : Error → Phase

-- `running`: the goroutines in `Run`; `returned`: those that have reset `Working` and are to send their
-- rollout; `failing`: those that have put their job back and are to call `removeSlave`; `erring`: those
-- in `SlaveError`. The other fields are the pool, the first number that is not in use, and the channels.
pub record Round (F : Type 0) : Type 0 where
  pub phase : Phase
  pub pool : List Managed
  pub fresh : ℕ
  pub queue : List (Job F)
  pub running : List (Assignment F)
  pub returned : List (Rollout F)
  pub failing : List ℕ
  pub erring : List ℕ
  pub results : List (Rollout F)
  pub rollouts : List (Rollout F)
  pub error : Option Error
  pub handled : Bool
  pub added : Bool

-- The job that a rollout says it is for.
abbrev pub rollout_job : {F : Type 0} → Rollout F → Job F
rollout_job r = record { scale = r.scale; seed = r.seed }

-- `Working = false` for a slave, which is known by its number.
abbrev pub set_idle : ℕ → List Managed → List Managed
set_idle k [] = []
set_idle k (m ∷ ms) = (if m.id == k then record m { working = false } else m) ∷ set_idle k ms

-- A send that is dropped if the channel holds an error.
abbrev pub report : Error → Option Error → Option Error
report e none = some e
report e (some e') = some e'

-- The indices below `n` are all in a list, as they are in `rand.Perm(n)`.
abbrev pub Covers : ℕ → List ℕ → Type 0
Covers zero perm = Unit
Covers (suc n) perm = (1 ≤ total (is_number n) perm) × Covers n perm

-- One call of `Rollouts`, taken alone: nothing has been sent yet on `slaveAdded`, which the master keeps for
-- all calls, and no goroutine of an earlier call is left.
abbrev pub start : {F : Type 0} → List Managed → ℕ → List (Job F) → Round F
start pool fresh jobs = record {
  phase = looping;
  pool = pool;
  fresh = fresh;
  queue = jobs;
  running = [];
  returned = [];
  failing = [];
  erring = [];
  results = [];
  rollouts = [];
  error = none;
  handled = false;
  added = false;
}

-- One move; the number of rollouts that are asked for is `wanted`.
pub data Step {F : Type 0} (wanted : ℕ) : Round F → Round F → Type 0 where
  -- The loop goes on: jobs are assigned.
  assign :
      {s : Round F} (perm : List ℕ) (res : List (Assignment F)) (pool : List Managed)
      (queue : List (Job F))
      → s.phase ≡ looping
      → length s.rollouts < wanted
      → All (λ i. i < length s.pool) perm
      → Covers (length s.pool) perm
      → assign_jobs perm s.pool s.queue ≡ some (res, pool, queue)
      → Step wanted s
          (record s { phase = selecting; pool = pool; queue = queue; running = s.running ++ res })
  -- The loop ends, with an error if there is one.
  finish :
      {s : Round F}
      → s.phase ≡ looping
      → wanted ≤ length s.rollouts
      → Step wanted s (record s { phase = finished s.error; error = none })
  -- The cases of the `select`.
  take_error :
      {s : Round F} (e : Error)
      → s.phase ≡ selecting
      → s.error ≡ some e
      → Step wanted s (record s { phase = draining e; error = none })
  take_handled :
      {s : Round F}
      → s.phase ≡ selecting
      → s.handled ≡ true
      → Step wanted s (record s { phase = looping; handled = false })
  take_added :
      {s : Round F}
      → s.phase ≡ selecting
      → s.added ≡ true
      → Step wanted s (record s { phase = looping; added = false })
  take_result :
      {s : Round F} (r : Rollout F) (rest : List (Rollout F))
      → s.phase ≡ selecting
      → s.results ≡ r ∷ rest
      → Step wanted s
          (record s { phase = looping; results = rest; rollouts = s.rollouts ++ (r ∷ []) })
  -- After an error the results are read until the channel is closed and empty, which is when no
  -- goroutine is left.
  drain :
      {s : Round F} (e : Error) (r : Rollout F) (rest : List (Rollout F))
      → s.phase ≡ draining e
      → s.results ≡ r ∷ rest
      → Step wanted s (record s { results = rest; rollouts = s.rollouts ++ (r ∷ []) })
  stop :
      {s : Round F} (e : Error)
      → s.phase ≡ draining e
      → s.running ≡ []
      → s.returned ≡ []
      → s.failing ≡ []
      → s.erring ≡ []
      → s.results ≡ []
      → Step wanted s (record s { phase = stopped e })
  -- A run succeeds with a rollout for its job.
  succeed :
      {s : Round F} (before after : List (Assignment F)) (a : Assignment F) (r : Rollout F)
      → s.running ≡ before ++ a ∷ after
      → rollout_job r ≡ a.job
      → Step wanted s (record s {
        pool = set_idle a.slave s.pool;
        running = before ++ after;
        returned = r ∷ s.returned;
      })
  send :
      {s : Round F} (before after : List (Rollout F)) (r : Rollout F)
      → s.returned ≡ before ++ r ∷ after
      → Step wanted s (record s { returned = before ++ after; results = s.results ++ (r ∷ []) })
  -- A run fails: its job goes back to the queue.
  fail :
      {s : Round F} (before after : List (Assignment F)) (a : Assignment F)
      → s.running ≡ before ++ a ∷ after
      → Step wanted s (record s {
        queue = s.queue ++ (a.job ∷ []);
        running = before ++ after;
        failing = a.slave ∷ s.failing;
      })
  remove :
      {s : Round F} (before after : List ℕ) (k : ℕ)
      → s.failing ≡ before ++ k ∷ after
      → Step wanted s (record s {
        pool = remove_slave k s.pool;
        failing = before ++ after;
        erring = k ∷ s.erring;
      })
  -- `SlaveError` returns an error or handles it.
  give_up :
      {s : Round F} (before after : List ℕ) (k : ℕ) (e : Error)
      → s.erring ≡ before ++ k ∷ after
      → Step wanted s (record s { erring = before ++ after; error = report e s.error })
  handle :
      {s : Round F} (before after : List ℕ) (k : ℕ)
      → s.erring ≡ before ++ k ∷ after
      → Step wanted s (record s { erring = before ++ after; handled = true })
  -- `AddSlave` appends a slave that has been initialized.
  add_slave :
      {s : Round F} (version : ℕ)
      → Step wanted s (record s {
        pool = s.pool ++ (record { id = s.fresh; version = version; working = false } ∷ []);
        fresh = suc s.fresh;
        added = true;
      })

pub data Steps {F : Type 0} (wanted : ℕ) (s : Round F) : Round F → Type 0 where
  here : Steps wanted s s
  then_step : {t u : Round F} → Steps wanted s t → Step wanted t u → Steps wanted s u
