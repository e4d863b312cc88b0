-- ===== src/ActorCritic/CrewTests.antt =====
-- A run of two workers, one of which fails.
use trpo.Prelude.{◌+◌, ◌*◌, ◌≤◌, ◌≡◌, inr, refl, [], ◌∷◌, true, Option, some, All, arith}
use trpo.Prelude.Failure.{Error, external, ctx}
use trpo.ActorCritic.Crew.{
  running, reporting, ended, waiting, returned, Crew, in_ctx, start_crew, IsEnded, quits, fails,
  sends, takes_error, finishes, Steps, here, next,
}
use trpo.ActorCritic.Crew.Settled.{Origin, total_left}
use trpo.ActorCritic.Crew.Settled.Returning.{Asked, count_moves, Returned, run_returns, run_waits}

-- What workers fail with
abbrev Lost : Error → Type 0
Lost e = e ≡ external 7

abbrev failed : Crew
failed = record (start_crew 2) { workers = reporting (external 7) ∷ running ∷ [] }

abbrev told : Crew
told = record failed { workers = ended ∷ running ∷ []; err_chan = external 7 ∷ [] }

abbrev stopping : Crew
stopping = record told { err_chan = []; stopped = true; main = waiting (some (external 7)) }

abbrev alone : Crew
alone = record stopping { workers = ended ∷ ended ∷ [] }

abbrev over : Crew
over = record alone { main = returned (some (ctx "run A3C" (external 7))) }

fail_first : Steps 2 Lost (start_crew 2) failed
fail_first = next here (fails (start_crew 2) [] (running ∷ []) (external 7) refl refl)

whole_run : Steps 2 Lost (start_crew 2) over
whole_run =
    let sent = next fail_first (sends failed [] (running ∷ []) (external 7) refl (omega arith)) in
    let taken = next sent (takes_error told (external 7) [] refl refl) in
    let quit = next taken (quits stopping (ended ∷ []) [] refl refl) in
    next quit (finishes alone (some (external 7)) refl (refl, (refl, tt)))

run_returns_example :
    (count_moves 2 Lost fail_first ≤ 2 * 2 + 3)
    × (t : Crew) × Steps 2 Lost failed t
    × Returned 2 Lost t
unfolding Asked total_left
run_returns_example = run_returns 2 Lost failed fail_first (inr (omega arith))

run_waits_example :
    All IsEnded (ended ∷ ended ∷ [])
    × (true ≡ true)
    × ((r : Option Error) × (some (ctx "run A3C" (external 7)) ≡ in_ctx r)
        × Origin 2 Lost over.done r)
run_waits_example = run_waits 2 Lost over (some (ctx "run A3C" (external 7))) whole_run refl
