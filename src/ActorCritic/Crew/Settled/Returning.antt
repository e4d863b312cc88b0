-- ===== src/ActorCritic/Crew/Settled/Returning.antt =====
-- `Run` of anya3c/a3c.go returns after all its workers have ended.
use trpo.Prelude.{
  ℕ, zero, suc, ◌+◌, ◌*◌, ◌≤◌, ◌<◌, ◌≡◌, ◌⊎◌, inl, inr, refl, ap, ◌∙◌, subst, List, [], ◌∷◌, ◌++◌,
  true, Option, length, replicate, All, arith,
}
use trpo.Prelude.Failure.{Error}
use trpo.ActorCritic.Crew.{
  Phase, running, reporting, ended, Main, selecting, waiting, returned, Crew, in_ctx, start_crew,
  IsEnded, Step, quits, fails, sends, closes, takes_error, takes_done, finishes, Steps, here, next,
}
use trpo.ActorCritic.Crew.Settled.{
  busy, busy-split, total_left, total_left-append, left, main_left, Origin, MainFits, Settled,
  start-Settled, Step-Settled, Steps-Settled,
}

-- A worker that is still there, or all have ended.
pub Unended : List Phase → Type 0
Unended ws =
    (before : List Phase) × (p : Phase) × (after : List Phase) × (ws ≡ before ++ p ∷ after)
    × (0 < busy (p ∷ []))

unended : (ws : List Phase) → All IsEnded ws ⊎ Unended ws
unfolding Unended busy
unended [] = inl tt
unended (running ∷ ws) = inr ([], running, ws, refl, omega arith)
unended (reporting e ∷ ws) = inr ([], reporting e, ws, refl, omega arith)
unended (ended ∷ ws) = elim (unended ws) [
  | inl all ↦ inl (refl, all)
  | inr (before, p, after, e, b) ↦ inr (ended ∷ before, p, after, ap (◌∷◌ ended) e, b)
]

-- A worker with an error to send, or none.
Reports : List Phase → Type 0
Reports ws =
    (before : List Phase) × (x : Error) × (after : List Phase) × (ws
      ≡ before ++ reporting x ∷ after)

reports : (ws : List Phase) → Reports ws ⊎ (total_left ws ≡ 2 * busy ws)
unfolding Reports total_left busy
reports [] = inr refl
reports (reporting e ∷ ws) = inl ([], e, ws, refl)
reports (running ∷ ws) = elim (reports ws) [
  | inl (before, x, after, e) ↦ inl (running ∷ before, x, after, ap (◌∷◌ running) e)
  | inr e ↦ inr (omega (arith, e))
]
reports (ended ∷ ws) = elim (reports ws) [
  | inl (before, x, after, e) ↦ inl (ended ∷ before, x, after, ap (◌∷◌ ended) e)
  | inr e ↦ inr (omega (arith, e))
]

total_left-split :
    (ws before after : List Phase) (p : Phase)
    → ws ≡ before ++ p ∷ after
    → total_left ws ≡ total_left before + total_left (p ∷ after)
total_left-split ws before after p e = ap total_left e ∙ total_left-append before (p ∷ after)

module _ (n : ℕ) (Fails : Error → Type 0) where
  -- Each move leaves less to be done.
  Step-left :
      {s t : Crew}
      → Step n Fails s t
      → (left t < left s) × (total_left t.workers ≤ total_left s.workers)
  unfolding left total_left main_left
  Step-left (quits s before after e st) =
      let split = total_left-split s.workers before after running e in
      let split' = total_left-append before (ended ∷ after) in
      (omega (arith, split, split'), omega (arith, split, split'))
  Step-left (fails s before after x e f) =
      let split = total_left-split s.workers before after running e in
      let split' = total_left-append before (reporting x ∷ after) in
      (omega (arith, split, split'), omega (arith, split, split'))
  Step-left (sends s before after x e r) =
      let split = total_left-split s.workers before after (reporting x) e in
      let split' = total_left-append before (ended ∷ after) in
      (omega (arith, split, split'), omega (arith, split, split'))
  Step-left (closes s d) = (rw d (omega arith), omega arith)
  Step-left (takes_error s x xs m c) = (rw m (omega arith), omega arith)
  Step-left (takes_done s m d) = (rw m (omega arith), omega arith)
  Step-left (finishes s r m all) = (rw m (omega arith), omega arith)

  -- A number of moves.
  unfoldable pub count_moves : {s t : Crew} → Steps n Fails s t → ℕ
  count_moves here = 0
  count_moves (next r st) = count_moves r + 1

  Steps-left : {s t : Crew} (r : Steps n Fails s t) → count_moves r + left t ≤ left s
  unfolding count_moves
  Steps-left here = omega arith
  Steps-left (next r st) = omega (arith, Steps-left r, (Step-left st).0)

  -- The caller has closed `done`, or a worker has failed.
  unfoldable pub Asked : Crew → Type 0
  Asked s = (s.done ≡ true) ⊎ (total_left s.workers < 2 * n)

  still_done : {s t : Crew} → Step n Fails s t → s.done ≡ true → t.done ≡ true
  still_done (quits s before after e st) d = d
  still_done (fails s before after x e f) d = d
  still_done (sends s before after x e r) d = d
  still_done (closes s d') d = refl
  still_done (takes_error s x xs m c) d = d
  still_done (takes_done s m d') d = d
  still_done (finishes s r m all) d = d

  Step-Asked : {s t : Crew} → Step n Fails s t → Asked s → Asked t
  unfolding Asked
  Step-Asked st (inl d) = inl (still_done st d)
  Step-Asked st (inr h) = inr (omega (arith, (Step-left st).1))

  Moves : Crew → Type 0
  Moves s = (t : Crew) × Step n Fails s t

  -- A worker that has not ended can go on once `stopChan` is closed.
  go_on :
      (s : Crew) (before : List Phase) (p : Phase) (after : List Phase)
      → s.workers ≡ before ++ p ∷ after
      → 0 < busy (p ∷ [])
      → Settled n Fails s
      → s.stopped ≡ true
      → Moves s
  unfolding Moves busy
  go_on s before running after e b h st = (_, quits s before after e st)
  go_on s before (reporting x) after e b h st =
      let split = busy-split s.workers before after (reporting x) e in
      (_, sends s before after x e (omega (arith, split, h.room)))
  go_on s before ended after e b h st = absurd (omega arith)

  unfoldable pub Returned : Crew → Type 0
  Returned s = (e : Option Error) × (s.main ≡ returned e)

  progress :
      (m : Main) (s : Crew)
      → s.main ≡ m
      → Settled n Fails s
      → MainFits n Fails m s
      → Asked s
      → Returned s ⊎ Moves s
  unfolding Returned Moves MainFits Asked Reports Unended busy
  progress (returned e) s m h f a = inl (e, m)
  progress (waiting r) s m h (st, o) a = elim (unended s.workers) [
    | inl all ↦ inr (_, finishes s r m all)
    | inr (before, p, after, e, b) ↦ inr (go_on s before p after e b h st)
  ]
  progress selecting s m h (st, c) a = in_select s.err_chan refl a
    where
      in_select : (es : List Error) → s.err_chan ≡ es → Asked s → Returned s ⊎ Moves s
      in_select (x ∷ xs) q a = inr (_, takes_error s x xs m q)
      in_select [] q (inl d) = inr (_, takes_done s m d)
      in_select [] q (inr less) = elim (reports s.workers) [
        | inl (before, x, after, e) ↦
            let split = busy-split s.workers before after (reporting x) e in
            inr (_, sends s before after x e (omega (arith, split, h.room, ap length q)))
        | inr all ↦ absurd (omega (arith, c, ap length q))
      ]

  returns_from :
      (k : ℕ) (s : Crew)
      → left s < k
      → Settled n Fails s
      → Asked s
      → (t : Crew) × Steps n Fails s t × Returned t
  unfolding Returned Moves
  returns_from zero s b h a = absurd (omega arith)
  returns_from (suc k) s b h a = elim (progress s.main s refl h h.main_fits a) [
    | inl r ↦ (s, here, r)
    | inr (t, st) ↦
        let (u, r, q) =
          returns_from k t (omega (arith, (Step-left st).0)) (Step-Settled n Fails st h)
            (Step-Asked st a) in
        (u, before_steps st r, q)
  ]
    where
      before_steps : {s t u : Crew} → Step n Fails s t → Steps n Fails t u → Steps n Fails s u
      before_steps st here = next here st
      before_steps st (next r st') = next (before_steps st r) st'

  start-left : left (start_crew n) ≡ 2 * n + 3
  unfolding left main_left
  start-left = omega (arith, all_left n)
    where
      all_left : (k : ℕ) → total_left (replicate k running) ≡ 2 * k
      all_left zero = refl
      all_left (suc k) = omega (arith, all_left k)

  -- However the goroutines take turns, there are at most three moves more than two for each environment; and
  -- if the caller has closed `done` or a worker has failed, then there is a way on on which `Run` returns.
  pub run_returns :
      (s : Crew) (r : Steps n Fails (start_crew n) s)
      → Asked s
      → (count_moves r ≤ 2 * n + 3) × (t : Crew) × Steps n Fails s t × Returned t
  run_returns s r a =
      let (t, more, q) =
        returns_from (suc (left s)) s (omega arith)
          (Steps-Settled n Fails r (start-Settled n Fails)) a in
      (omega (arith, Steps-left r, start-left), t, more, q)

  -- When `Run` has returned, all workers have ended and `stopChan` is closed. What it returns is the error of a
  -- worker, in the context of `Run`, or no error where the caller has closed `done`.
  pub run_waits :
      (s : Crew) (e : Option Error)
      → Steps n Fails (start_crew n) s
      → s.main ≡ returned e
      → All IsEnded s.workers
        × (s.stopped ≡ true)
        × ((r : Option Error) × (e ≡ in_ctx r) × Origin n Fails s.done r)
  unfolding MainFits
  run_waits s e r m =
      let fits = (Steps-Settled n Fails r (start-Settled n Fails)).main_fits in
      let (st, x, q, o, all) = subst (λ y. MainFits n Fails y s) m fits in (all, st, (x, q, o))
