-- ===== src/ActorCritic/Crew.antt =====
-- `Run` of anya3c/a3c.go with its goroutines: the workers, the channels of errors and of the end, and the wait
-- for all workers. What a worker does is its own: it ends with an error, or without one after `stopChan` is
-- closed.
pub mod Settled
use trpo.Prelude.{
  ℕ, zero, suc, ◌<◌, ◌≡◌, List, [], ◌∷◌, ◌++◌, Bool, true, false, Option, none, some, length,
  replicate, All,
}
use trpo.Prelude.Failure.{Error, ctx}

-- The goroutine of a worker: in `worker`, sending an error to `errChan`, or done with `wg`.
pub data Phase : Type 0 where
  running : Phase
  reporting : Error → Phase
  ended : Phase

-- `Run`: in its `select`, in `wg.Wait`, or returned.
pub data Main : Type 0 where
  selecting : Main
  waiting : Option Error → Main
  returned : Option Error → Main

-- `stopped` and `done` tell whether `stopChan` and `done` are closed.
pub record Crew : Type 0 where
  pub workers : List Phase
  pub err_chan : List Error
  pub stopped : Bool
  pub done : Bool
  pub main : Main

-- `defer essentials.AddCtxTo("run A3C", &err)`
abbrev pub in_ctx : Option Error → Option Error
in_ctx none = none
in_ctx (some e) = some (ctx "run A3C" e)

-- `Run` for `n` environments, at its `select`.
abbrev pub start_crew : ℕ → Crew
start_crew n = record {
  workers = replicate n running;
  err_chan = [];
  stopped = false;
  done = false;
  main = selecting;
}

abbrev pub IsEnded : Phase → Type 0
IsEnded p = p ≡ ended

-- `errChan` has room for an error of each of the `n` workers; `Fails` holds of the errors of workers.
module _ (n : ℕ) (Fails : Error → Type 0) where
  pub data Step : Crew → Crew → Type 0 where
    quits :
        (s : Crew) (before after : List Phase)
        → s.workers ≡ before ++ running ∷ after
        → s.stopped ≡ true
        → Step s (record s { workers = before ++ ended ∷ after })
    fails :
        (s : Crew) (before after : List Phase) (e : Error)
        → s.workers ≡ before ++ running ∷ after
        → Fails e
        → Step s (record s { workers = before ++ reporting e ∷ after })
    sends :
        (s : Crew) (before after : List Phase) (e : Error)
        → s.workers ≡ before ++ reporting e ∷ after
        → length s.err_chan < n
        → Step s (record s { workers = before ++ ended ∷ after; err_chan = s.err_chan ++ e ∷ [] })
    -- The caller closes `done`.
    closes : (s : Crew) → s.done ≡ false → Step s (record s { done = true })
    -- The `select`, and `close(stopChan)`
    takes_error :
        (s : Crew) (e : Error) (es : List Error)
        → s.main ≡ selecting
        → s.err_chan ≡ e ∷ es
        → Step s (record s { err_chan = es; stopped = true; main = waiting (some e) })
    takes_done :
        (s : Crew)
        → s.main ≡ selecting
        → s.done ≡ true
        → Step s (record s { stopped = true; main = waiting none })
    -- `wg.Wait` ends.
    finishes :
        (s : Crew) (e : Option Error)
        → s.main ≡ waiting e
        → All IsEnded s.workers
        → Step s (record s { main = returned (in_ctx e) })

  pub data Steps (s : Crew) : Crew → Type 0 where
    here : Steps s s
    next : {t u : Crew} → Steps s t → Step t u → Steps s u
