-- ===== src/Slave/Running.antt =====
-- `Run` of a slave (anyes/slave.go): its end, its limits, and the parameters after it.
use trpo.Prelude.{
  ℕ, zero, suc, ◌+◌, ◌≤◌, ◌<◌, ◌≡◌, refl, List, Bool, true, false, not, ◌&&◌, ◌||◌, Option, none,
  some, ◌==◌, ltb, ltb→lt, Bool-cases, Option-cases, inl, inr, arith,
}
use trpo.Prelude.Float.{Float}
use trpo.Prelude.Failure.{Error, ok}
use trpo.Env.{Env}
use trpo.Master.{Rollout}
use trpo.Slave.{
  StopConds, ParamsApi, Policy, ends, run_ctx, first_error, new_rollout, run_loop, run_mutated,
  slave_run,
}

not_zero : (n : ℕ) → 0 < n → (n == 0) ≡ false
not_zero n h = ground arith

or_false : (a b : Bool) → a ≡ false → b ≡ false → (a || b) ≡ false
or_false a b e h = rw (e, h) refl

or_true : (a b : Bool) → a ≡ true → (a || b) ≡ true
or_true a b e = rw e refl

below : (a b : ℕ) → ltb a b ≡ true → a < b
below a b e = ltb→lt a b e

-- A rollout of a run: it is for the scale and the seed that were asked for, no longer than the limit,
-- and counts as stopped unless the environment was done.
pub record Within {F : Type 0} (stop : StopConds) (scale : F) (seed : ℕ) (r : Rollout F)
    : Type 0 where
  pub scale_kept : r.scale ≡ scale
  pub seed_kept : r.seed ≡ seed
  pub short : r.steps ≤ stop.max_steps

stays :
    {F : Type 0} (stop : StopConds) (r : Rollout F)
    → r.steps ≤ stop.max_steps
    → Within stop r.scale r.seed r
stays stop r h = record { scale_kept = refl; seed_kept = refl; short = h }

module _ {F S W P : Type 0} ⦃fl : Float F⦄ (env : Env F S) (policy : Policy F W P) where
  abbrev Ends : StopConds → F → ℕ → Option ((Rollout F × Option Error) × S) → Type 0
  Ends stop scale seed out =
      (r : Rollout F) × (e : Option Error) × (s : S) × (out ≡ some ((r, e), s))
      × Within stop scale seed r

  run_loop-Ends :
      (late : ℕ → Bool) (stop : StopConds) (w : W) (fuel : ℕ) (r : Rollout F) (state : P)
      (obs : List F) (s : S)
      → 0 < stop.max_steps
      → stop.max_steps < r.steps + fuel
      → r.steps ≤ stop.max_steps
      → Ends stop r.scale r.seed (run_loop env policy late stop w fuel r state obs s)
  unfolding run_loop
  run_loop-Ends late stop w zero r state obs s pos enough short = absurd (omega arith)
  run_loop-Ends late stop w (suc fuel) r state obs s pos enough short =
      let (action, state') = policy.step w state obs in
      let (o, s') = env.step s action in
      let r' = record r { reward = fl.plus r.reward o.rew; steps = r.steps + 1 } in
      let more = ltb r.steps stop.max_steps || (stop.max_steps == 0) in
      let timeout = not (stop.max_time == 0) && late r.steps in
      elim (Bool-cases (ltb r.steps stop.max_steps)) [
        | inr full ↦ (
          r,
          none,
          s,
          rw (or_false _ _ full (not_zero stop.max_steps pos), run_loop) refl,
          stays stop r short,
        )
        | inl going ↦
            let goes = or_true (ltb r.steps stop.max_steps) (stop.max_steps == 0) going in
            elim (Bool-cases timeout) [
              | inl stopped ↦ (r, none, s, rw (goes, stopped, run_loop) refl, stays stop r short)
              | inr running ↦ elim (Option-cases o.error) [
                | inr (e, bad) ↦
                    (r, some e, s', rw (goes, running, bad, run_loop) refl, stays stop r short)
                | inl good ↦ elim (Bool-cases o.done) [
                  | inl finished ↦ (
                    record r' { early_stop = false },
                    none,
                    s',
                    rw (goes, running, good, finished, run_loop) refl,
                    record {
                      scale_kept = refl;
                      seed_kept = refl;
                      short = omega (arith, below r.steps stop.max_steps going);
                    },
                  )
                  | inr unfinished ↦
                      let (q, e, t, equal, h) =
                        run_loop-Ends late stop w fuel r' state' o.obs s' pos (omega arith)
                          (omega (arith, below r.steps stop.max_steps going)) in
                      (
                        q,
                        e,
                        t,
                        rw (goes, running, good, unfinished, run_loop) equal,
                        record {
                          scale_kept = h.scale_kept;
                          seed_kept = h.seed_kept;
                          short = h.short;
                        },
                      )
                ]
              ]
            ]
      ]

  run_mutated-Ends :
      (late : ℕ → Bool) (stop : StopConds) (scale : F) (seed : ℕ) (w : W) (s : S)
      → 0 < stop.max_steps
      → Ends stop scale seed (run_mutated env policy (suc stop.max_steps) late stop scale seed w s)
  unfolding run_mutated
  run_mutated-Ends late stop scale seed w s pos =
      let (obs, problem, s') = env.reset s in
      elim (Option-cases problem) [
        | inr (e, bad) ↦ (
          new_rollout scale seed,
          some e,
          s',
          rw (bad, run_mutated) refl,
          stays stop (new_rollout scale seed) (omega arith),
        )
        | inl good ↦
            let (q, e, t, equal, h) =
              run_loop-Ends late stop w (suc stop.max_steps) (new_rollout scale seed)
                (policy.begin w) obs s' pos (omega arith) (omega arith) in
            (q, e, t, rw (good, run_mutated) equal, h)
      ]

module _ {F S W P D : Type 0} ⦃fl : Float F⦄ (env : Env F S) (policy : Policy F W P)
    (params : ParamsApi F W D) (gen : F → ℕ → ℕ → Option (List F)) where
  -- With a limit on the steps, and parameters that can be serialized and mutated, `Run` ends: with one
  -- more round than the limit its loop is done. Whether or not there is an error, the rollout carries the
  -- scale and the seed that were asked for and has no more steps than the limit; and if serialized
  -- parameters can be set again after a mutation, the parameters are then the same as before the call.
  pub slave_run-Within :
      (late : ℕ → Bool) (stop : StopConds) (scale : F) (seed : ℕ) (w mutated : W) (old : D)
      (mutation : List F) (s : S)
      → 0 < stop.max_steps
      → params.data_of w ≡ ok old
      → gen scale seed (params.len w) ≡ some mutation
      → params.mutate w mutation ≡ some mutated
      → params.set_data old mutated ≡ (none, w)
      → (r : Rollout F) × (e : Option Error) × (s' : S) × (slave_run env policy params gen
            (suc stop.max_steps)
            late
            stop
            scale
            seed
            w
            s
          ≡ some (ends (some r) e, s', w))
        × Within stop scale seed r
  unfolding slave_run
  slave_run-Within late stop scale seed w mutated old mutation s pos saved noise change reset =
      let (r, e, s', equal, h) = run_mutated-Ends env policy late stop scale seed mutated s pos in
      (
        r,
        run_ctx (first_error e none),
        s',
        rw (saved, noise, change, equal, reset, slave_run) refl,
        h,
      )
