-- ===== src/Master/Tests.antt =====
-- Runs of the master with concrete slaves and jobs.
use trpo.Prelude.{
  ℕ, ◌+◌, ◌≤◌, ◌≡◌, refl, List, [], ◌∷◌, Bool, true, false, none, some, ◌==◌, if◌then◌else◌, ltb,
  arith, ◌*◌,
}
use trpo.Prelude.Int.{ℤ, pos, negsuc, int_float}
use trpo.Prelude.Failure.{Error, text}
use trpo.Master.{Managed, Job, Rollout, Assignment, make_jobs, assign_jobs, remove_slave}
use trpo.Master.Pool.{is_number, total, occurrences}
use trpo.Master.Assigning.{Hands, assign_jobs-Hands, idle, runs}
use trpo.Master.Rounds.{
  Round, here, then_step, assign, finish, take_error, take_result, stop, succeed, send, fail,
  remove, give_up, handle, take_handled, selecting, finished, stopped,
}
use trpo.Master.Conserved.{all_jobs, on_rollout}
use trpo.Master.Outcome.{Reached, rollouts-all_jobs, finished_rollouts, stopped_rollouts}
use trpo.Master.Progress.{signals}
use trpo.Master.Manned.{rollouts_wait}
use trpo.Master.Exclusive.{rollouts_exclusive}

abbrev worker : ℕ → Bool → Managed
worker k busy = record { id = k; version = 0; working = busy }

abbrev pair : List Managed
pair = worker 4 true ∷ worker 9 false ∷ []

abbrev jobs : List (Job ℤ)
jobs = make_jobs (pos 3) (7 ∷ [])

remove_test :
    remove_slave 4 (worker 4 true ∷ worker 9 false ∷ worker 5 true ∷ [])
    ≡ worker 5 true ∷ worker 9 false ∷ []
unfolding remove_slave
remove_test = refl

jobs_test : jobs ≡ record { scale = negsuc 2; seed = 7 } ∷ record { scale = pos 3; seed = 7 } ∷ []
unfolding make_jobs
jobs_test = refl

assign_test :
    assign_jobs (1 ∷ 0 ∷ []) pair (record { scale = pos 3; seed = 7 } ∷ [])
    ≡ some (
      record { slave = 9; job = record { scale = pos 3; seed = 7 } } ∷ [],
      worker 4 true ∷ worker 9 true ∷ [],
      [],
    )
unfolding assign_jobs
assign_test = refl

-- One slave that does both jobs of one seed.
abbrev one : List Managed
one = worker 0 false ∷ []

abbrev done : ℤ → Rollout ℤ
done scale = record { scale = scale; seed = 7; reward = pos 1; steps = 2; early_stop = false }

abbrev job : ℤ → Job ℤ
job scale = record { scale = scale; seed = 7 }

abbrev run : ℤ → Assignment ℤ
run scale = record { slave = 0; job = job scale }

-- Where a call that succeeds ends.
abbrev good_end : Round ℤ
good_end = record {
  phase = finished none;
  pool = one;
  fresh = 1;
  queue = [];
  running = [];
  returned = [];
  failing = [];
  erring = [];
  results = [];
  rollouts = done (negsuc 2) ∷ done (pos 3) ∷ [];
  error = none;
  handled = false;
  added = false;
}

good_run : Reached (pos 3) (7 ∷ []) one 1 good_end
unfolding assign_jobs make_jobs
good_run =
    let assigned = then_step here (
      assign (0 ∷ []) (run (negsuc 2) ∷ []) (worker 0 true ∷ []) (job (pos 3) ∷ []) refl
        (omega arith) (omega arith, tt) (omega arith, tt) refl) in
    let ran = then_step assigned (succeed [] [] (run (negsuc 2)) (done (negsuc 2)) refl refl) in
    let sent = then_step ran (send [] [] (done (negsuc 2)) refl) in
    let taken = then_step sent (take_result (done (negsuc 2)) [] refl refl) in
    let assigned' = then_step taken (
      assign (0 ∷ []) (run (pos 3) ∷ []) (worker 0 true ∷ []) [] refl (omega arith)
        (omega arith, tt) (omega arith, tt) refl) in
    let ran' = then_step assigned' (succeed [] [] (run (pos 3)) (done (pos 3)) refl refl) in
    let sent' = then_step ran' (send [] [] (done (pos 3)) refl) in
    let taken' = then_step sent' (take_result (done (pos 3)) [] refl refl) in
    then_step taken' (finish refl (omega arith))

abbrev lost : Error
lost = text "lost"

-- Where a call ends whose only slave fails.
abbrev bad_end : Round ℤ
bad_end = record {
  phase = stopped lost;
  pool = [];
  fresh = 1;
  queue = job (pos 3) ∷ job (negsuc 2) ∷ [];
  running = [];
  returned = [];
  failing = [];
  erring = [];
  results = [];
  rollouts = [];
  error = none;
  handled = false;
  added = false;
}

bad_run : Reached (pos 3) (7 ∷ []) one 1 bad_end
unfolding assign_jobs make_jobs remove_slave
bad_run =
    let assigned = then_step here (
      assign (0 ∷ []) (run (negsuc 2) ∷ []) (worker 0 true ∷ []) (job (pos 3) ∷ []) refl
        (omega arith) (omega arith, tt) (omega arith, tt) refl) in
    let failed = then_step assigned (fail [] [] (run (negsuc 2)) refl) in
    let removed = then_step failed (remove [] [] 0 refl) in
    let reported = then_step removed (give_up [] [] 0 lost refl) in
    let taken = then_step reported (take_error lost refl refl) in
    then_step taken (stop lost refl refl refl refl refl refl)

-- 1 for a job of the seed 7.
abbrev seven : Job ℤ → ℕ
seven j = if j.seed == 7 then 1 else 0

assign_jobs-Hands_example : Hands (0 ∷ []) (1 ∷ []) pair (job (pos 3) ∷ [])
assign_jobs-Hands_example =
    assign_jobs-Hands (0 ∷ []) (1 ∷ []) pair (job (pos 3) ∷ []) (omega arith, tt)
      ((worker 4 true, refl, refl), tt)

rollouts-all_jobs_example :
    (all_jobs seven good_end ≡ total seven (make_jobs (pos 3) (7 ∷ [])))
    × (0 ≤ 2 * 1)
    × (0 + 0 ≤ 2 * 1)
rollouts-all_jobs_example = rollouts-all_jobs (pos 3) (7 ∷ []) one 1 seven good_end good_run

finished_rollouts_example :
    (2 ≡ 2 * 1)
    × (total (on_rollout seven) good_end.rollouts ≡ total seven (make_jobs (pos 3) (7 ∷ [])))
    × (good_end.queue ≡ [])
    × (good_end.running ≡ [])
    × (good_end.returned ≡ [])
    × (good_end.results ≡ [])
finished_rollouts_example =
    finished_rollouts (pos 3) (7 ∷ []) one 1 seven good_end none good_run refl

stopped_rollouts_example :
    (total (on_rollout seven) bad_end.rollouts + total seven bad_end.queue
      ≡ total seven (make_jobs (pos 3) (7 ∷ [])))
    × (bad_end.running ≡ [])
    × (bad_end.returned ≡ [])
    × (bad_end.failing ≡ [])
    × (bad_end.erring ≡ [])
    × (bad_end.results ≡ [])
stopped_rollouts_example = stopped_rollouts (pos 3) (7 ∷ []) one 1 seven bad_end lost bad_run refl

rollouts_exclusive_example :
    (total (idle 0) bad_end.pool
        + total (runs 0) bad_end.running
        + total (is_number 0) bad_end.failing
        + total (is_number 0) bad_end.erring
      ≤ 1)
    × (occurrences 0 bad_end.pool + total (is_number 0) bad_end.erring ≤ 1)
rollouts_exclusive_example =
    rollouts_exclusive 2 one 1 (make_jobs (pos 3) (7 ∷ [])) bad_end distinct bad_run 0
  where
    distinct : (k : ℕ) → occurrences k one ≤ (if ltb k 1 then 1 else 0)
    distinct k = ground arith

-- Where a call waits: its only slave has failed, and `SlaveError` has handled that.
abbrev waiting : Round ℤ
waiting = record {
  phase = selecting;
  pool = [];
  fresh = 1;
  queue = job (pos 3) ∷ job (negsuc 2) ∷ [];
  running = [];
  returned = [];
  failing = [];
  erring = [];
  results = [];
  rollouts = [];
  error = none;
  handled = false;
  added = false;
}

waiting_run : Reached (pos 3) (7 ∷ []) one 1 waiting
unfolding assign_jobs make_jobs remove_slave
waiting_run =
    let assigned = then_step here (
      assign (0 ∷ []) (run (negsuc 2) ∷ []) (worker 0 true ∷ []) (job (pos 3) ∷ []) refl
        (omega arith) (omega arith, tt) (omega arith, tt) refl) in
    let failed = then_step assigned (fail [] [] (run (negsuc 2)) refl) in
    let removed = then_step failed (remove [] [] 0 refl) in
    let handled = then_step removed (handle [] [] 0 refl) in
    let taken = then_step handled (take_handled refl refl) in
    then_step taken
      (assign [] [] [] (job (pos 3) ∷ job (negsuc 2) ∷ []) refl (omega arith) tt tt refl)

silent : signals waiting ≡ 0
unfolding signals
silent = refl

rollouts_wait_example : waiting.pool ≡ []
rollouts_wait_example =
    rollouts_wait (pos 3) (7 ∷ []) one 1 waiting distinct (refl, tt) waiting_run refl silent
  where
    distinct : (k : ℕ) → occurrences k one ≤ (if ltb k 1 then 1 else 0)
    distinct k = ground arith
