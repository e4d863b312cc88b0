-- ===== src/Master/Outcome.antt =====
-- `Rollouts` (anyes/master.go): what its channels hold and what it returns.
use trpo.Prelude.{
  ℕ, suc, ◌+◌, ◌*◌, ◌≤◌, ◌≡◌, refl, ap, sym, subst, List, [], ◌∷◌, ◌++◌, Option, length,
  length-append, arith,
}
use trpo.Prelude.Float.{Float}
use trpo.Prelude.Failure.{Error}
use trpo.Master.{Managed, Job, make_jobs}
use trpo.Master.Pool.{total}
use trpo.Master.Rounds.{
  Phase, looping, selecting, draining, finished, stopped, Round, start, Step, Steps, here,
  then_step, assign, finish, take_error, take_handled, take_added, take_result, drain, stop,
  succeed, send, fail, remove, give_up, handle, add_slave,
}
use trpo.Master.Conserved.{all_jobs, all_jobs-Steps, on_rollout, on_job}

length-middle {ℓ} :
    {A : Type ℓ} (xs before : List A) (a : A) (after : List A)
    → xs ≡ before ++ a ∷ after
    → length xs ≡ suc (length (before ++ after))
length-middle xs before a after e =
    omega (arith, ap length e, length-append before (a ∷ after), length-append before after)

length-snoc {ℓ} : {A : Type ℓ} (xs : List A) (a : A) → length (xs ++ (a ∷ [])) ≡ suc (length xs)
length-snoc xs a = omega (arith, length-append xs (a ∷ []))

total-ones {ℓ} : {A : Type ℓ} (xs : List A) → total (λ x. 1) xs ≡ length xs
total-ones [] = refl
total-ones (x ∷ xs) = omega (arith, total-ones xs)

no_elements {ℓ} : {A : Type ℓ} (xs : List A) → length xs ≡ 0 → xs ≡ []
no_elements [] e = refl
no_elements (x ∷ xs) e = absurd (omega arith)

length-make_jobs :
    {F : Type 0} ⦃fl : Float F⦄ (stddev : F) (seeds : List ℕ)
    → length (make_jobs stddev seeds) ≡ 2 * length seeds
unfolding make_jobs
length-make_jobs stddev [] = omega arith
length-make_jobs stddev (seed ∷ seeds) = omega (arith, length-make_jobs stddev seeds)

module _ {F : Type 0} where
  -- What goroutines and the channel of results still hold.
  abbrev pending : Round F → ℕ
  pending s =
      length s.running + length s.returned + length s.failing + length s.erring + length s.results

  -- What is known where the call has returned.
  EndedAt : ℕ → Round F → Phase → Type 0
  EndedAt wanted s looping = Unit
  EndedAt wanted s selecting = Unit
  EndedAt wanted s (draining e) = Unit
  EndedAt wanted s (finished e) = wanted ≤ length s.rollouts
  EndedAt wanted s (stopped e) = pending s ≡ 0

  keeps :
      (wanted : ℕ) (s t : Round F) (p : Phase)
      → length s.rollouts ≡ length t.rollouts
      → pending t ≤ pending s
      → EndedAt wanted s p
      → EndedAt wanted t p
  unfolding EndedAt
  keeps wanted s t looping e l h = tt
  keeps wanted s t selecting e l h = tt
  keeps wanted s t (draining x) e l h = tt
  keeps wanted s t (finished x) e l h = omega arith
  keeps wanted s t (stopped x) e l h = omega arith

  EndedAt-Step :
      (wanted : ℕ) (s t : Round F)
      → Step wanted s t
      → EndedAt wanted s s.phase
      → EndedAt wanted t t.phase
  unfolding EndedAt
  EndedAt-Step wanted s t (assign perm res pool queue p l b c e) h = tt
  EndedAt-Step wanted s t (finish p l) h = l
  EndedAt-Step wanted s t (take_error x p e) h = tt
  EndedAt-Step wanted s t (take_handled p e) h = tt
  EndedAt-Step wanted s t (take_added p e) h = tt
  EndedAt-Step wanted s t (take_result r rest p e) h = tt
  EndedAt-Step wanted s t (drain e0 r rest p e) h = subst (EndedAt wanted t) (sym p) tt
  EndedAt-Step wanted s t (stop x p a b c d e) h =
      omega (arith, ap length a, ap length b, ap length c, ap length d, ap length e)
  EndedAt-Step wanted s t (succeed before after a r e j) h =
      keeps wanted s t s.phase refl (omega (arith, length-middle s.running before a after e)) h
  EndedAt-Step wanted s t (send before after r e) h =
      keeps wanted s t s.phase refl
        (omega (arith, length-middle s.returned before r after e, length-snoc s.results r)) h
  EndedAt-Step wanted s t (fail before after a e) h =
      keeps wanted s t s.phase refl (omega (arith, length-middle s.running before a after e)) h
  EndedAt-Step wanted s t (remove before after k e) h =
      keeps wanted s t s.phase refl (omega (arith, length-middle s.failing before k after e)) h
  EndedAt-Step wanted s t (give_up before after k x e) h =
      keeps wanted s t s.phase refl (omega (arith, length-middle s.erring before k after e)) h
  EndedAt-Step wanted s t (handle before after k e) h =
      keeps wanted s t s.phase refl (omega (arith, length-middle s.erring before k after e)) h
  EndedAt-Step wanted s t (add_slave version) h = keeps wanted s t s.phase refl (omega arith) h

  EndedAt-Steps :
      (wanted : ℕ) (s t : Round F)
      → Steps wanted s t
      → EndedAt wanted s s.phase
      → EndedAt wanted t t.phase
  EndedAt-Steps wanted s t here h = h
  EndedAt-Steps wanted s t (then_step {t = m} p q) h =
      EndedAt-Step wanted m t q (EndedAt-Steps wanted s m p h)

module _ {F : Type 0} ⦃fl : Float F⦄ (stddev : F) (seeds : List ℕ) (pool : List Managed)
    (fresh : ℕ) where
  -- A state that a call of `Rollouts` for these seeds can come to.
  abbrev pub Reached : Round F → Type 0
  Reached s = Steps (2 * length seeds) (start pool fresh (make_jobs stddev seeds)) s

  conserved :
      (w : Job F → ℕ) (s : Round F) → Reached s → all_jobs w s ≡ total w (make_jobs stddev seeds)
  conserved w s r = omega (arith, all_jobs-Steps w _ _ s r)

  pub counted :
      (s : Round F)
      → Reached s
      → length s.queue + length s.running + length s.returned + length s.results + length s.rollouts
        ≡ 2 * length seeds
  counted s r = omega (
    arith,
    conserved (λ j. 1) s r,
    total-ones s.queue,
    total-ones s.running,
    total-ones s.returned,
    total-ones s.results,
    total-ones s.rollouts,
    total-ones (make_jobs stddev seeds),
    length-make_jobs stddev seeds,
  )

  -- Whatever slaves do and however the goroutines interleave, no job is lost and none is done twice: at
  -- every moment the queue, the runs, and the rollouts that are sent, received or on the way are together
  -- the two jobs of each seed, measured by any weight. So neither channel ever holds more than the
  -- `2 * n` that it has room for, and no send waits.
  pub rollouts-all_jobs :
      (w : Job F → ℕ) (s : Round F)
      → Reached s
      → (all_jobs w s ≡ total w (make_jobs stddev seeds))
        × (length s.queue ≤ 2 * length seeds)
        × (length s.returned + length s.results ≤ 2 * length seeds)
  rollouts-all_jobs w s r =
      (conserved w s r, omega (arith, counted s r), omega (arith, counted s r))

  -- When `Rollouts` returns from the end of its loop, it returns exactly `2 * n` rollouts, one for each
  -- job by any weight; no job is left, and no slave runs.
  pub finished_rollouts :
      (w : Job F → ℕ) (s : Round F) (e : Option Error)
      → Reached s
      → s.phase ≡ finished e
      → (length s.rollouts ≡ 2 * length seeds)
        × (total (on_rollout w) s.rollouts ≡ total w (make_jobs stddev seeds))
        × (s.queue ≡ [])
        × (s.running ≡ [])
        × (s.returned ≡ [])
        × (s.results ≡ [])
  unfolding EndedAt
  finished_rollouts w s e r p =
      let all = counted s r in
      let enough : 2 * length seeds ≤ length s.rollouts =
        subst (EndedAt (2 * length seeds) s) p (EndedAt-Steps _ _ s r tt) in
      let q = no_elements s.queue (omega arith) in
      let a = no_elements s.running (omega arith) in
      let b = no_elements s.returned (omega arith) in
      let c = no_elements s.results (omega arith) in
      (
        omega arith,
        omega (
          arith,
          conserved w s r,
          ap (total w) q,
          ap (total (on_job w)) a,
          ap (total (on_rollout w)) b,
          ap (total (on_rollout w)) c,
        ),
        q,
        a,
        b,
        c,
      )

  -- When `Rollouts` returns after an error, no slave runs and none is being removed, every result that
  -- was sent is in the list, and the rollouts with the jobs that are still queued are all of the jobs,
  -- by any weight.
  pub stopped_rollouts :
      (w : Job F → ℕ) (s : Round F) (e : Error)
      → Reached s
      → s.phase ≡ stopped e
      → (total (on_rollout w) s.rollouts + total w s.queue ≡ total w (make_jobs stddev seeds))
        × (s.running ≡ [])
        × (s.returned ≡ [])
        × (s.failing ≡ [])
        × (s.erring ≡ [])
        × (s.results ≡ [])
  unfolding EndedAt
  stopped_rollouts w s e r p =
      let nothing : pending s ≡ 0 =
        subst (EndedAt (2 * length seeds) s) p (EndedAt-Steps _ _ s r tt) in
      let a = no_elements s.running (omega arith) in
      let b = no_elements s.returned (omega arith) in
      let c = no_elements s.results (omega arith) in
      (
        omega (
          arith,
          conserved w s r,
          ap (total (on_job w)) a,
          ap (total (on_rollout w)) b,
          ap (total (on_rollout w)) c,
        ),
        a,
        b,
        no_elements s.failing (omega arith),
        no_elements s.erring (omega arith),
        c,
      )
