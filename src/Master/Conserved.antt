-- ===== src/Master/Conserved.antt =====
-- `Rollouts` (anyes/master.go): where the jobs are, as sums over all of them.
use trpo.Prelude.{ℕ, ◌+◌, ◌≡◌, refl, ap, ◌∙◌, List, [], ◌∷◌, ◌++◌, map, arith}
use trpo.Master.{Job, Rollout, Assignment}
use trpo.Master.Pool.{total, total-append}
use trpo.Master.Assigning.{assign_jobs-Handed, job_of}
use trpo.Master.Rounds.{
  Round, rollout_job, Step, Steps, here, then_step, assign, finish, take_error, take_handled,
  take_added, take_result, drain, stop, succeed, send, fail, remove, give_up, handle, add_slave,
}

pub total-middle {ℓ} :
    {A : Type ℓ} (w : A → ℕ) (xs before : List A) (a : A) (after : List A)
    → xs ≡ before ++ a ∷ after
    → total w xs ≡ w a + total w (before ++ after)
total-middle w xs before a after e =
    omega (arith, ap (total w) e, total-append w before (a ∷ after), total-append w before after)

pub total-snoc {ℓ} :
    {A : Type ℓ} (w : A → ℕ) (xs : List A) (a : A) → total w (xs ++ (a ∷ [])) ≡ total w xs + w a
total-snoc w xs a = omega (arith, total-append w xs (a ∷ []))

module _ {F : Type 0} where
  -- The weight of the job of an assignment, and of that of a rollout.
  abbrev pub on_job : (Job F → ℕ) → Assignment F → ℕ
  on_job w a = w a.job

  abbrev pub on_rollout : (Job F → ℕ) → Rollout F → ℕ
  on_rollout w r = w (rollout_job r)

  total-map_job :
      (w : Job F → ℕ) (res : List (Assignment F)) → total w (map job_of res) ≡ total (on_job w) res
  total-map_job w [] = refl
  total-map_job w (a ∷ res) = omega (arith, total-map_job w res)

  -- The weight of all jobs, wherever they are.
  abbrev pub all_jobs : (Job F → ℕ) → Round F → ℕ
  all_jobs w s =
      total w s.queue
      + total (on_job w) s.running
      + total (on_rollout w) s.returned
      + total (on_rollout w) s.results
      + total (on_rollout w) s.rollouts

  all_jobs-Step :
      (w : Job F → ℕ) (wanted : ℕ) (s t : Round F) → Step wanted s t → all_jobs w t ≡ all_jobs w s
  all_jobs-Step w wanted s t (assign perm res pool queue p l b c e) =
      let h = assign_jobs-Handed perm s.pool pool s.queue queue res b e in
      omega (
        arith,
        ap (total w) h.taken,
        total-append w (map job_of res) queue,
        total-map_job w res,
        total-append (on_job w) s.running res,
      )
  all_jobs-Step w wanted s t (finish p l) = refl
  all_jobs-Step w wanted s t (take_error x p e) = refl
  all_jobs-Step w wanted s t (take_handled p e) = refl
  all_jobs-Step w wanted s t (take_added p e) = refl
  all_jobs-Step w wanted s t (take_result r rest p e) =
      omega (arith, ap (total (on_rollout w)) e, total-snoc (on_rollout w) s.rollouts r)
  all_jobs-Step w wanted s t (drain e0 r rest p e) =
      omega (arith, ap (total (on_rollout w)) e, total-snoc (on_rollout w) s.rollouts r)
  all_jobs-Step w wanted s t (stop x p a b c d e) = refl
  all_jobs-Step w wanted s t (succeed before after a r e j) =
      omega (arith, total-middle (on_job w) s.running before a after e, ap w j)
  all_jobs-Step w wanted s t (send before after r e) = omega (
    arith,
    total-middle (on_rollout w) s.returned before r after e,
    total-snoc (on_rollout w) s.results r,
  )
  all_jobs-Step w wanted s t (fail before after a e) =
      omega (arith, total-middle (on_job w) s.running before a after e, total-snoc w s.queue a.job)
  all_jobs-Step w wanted s t (remove before after k e) = refl
  all_jobs-Step w wanted s t (give_up before after k x e) = refl
  all_jobs-Step w wanted s t (handle before after k e) = refl
  all_jobs-Step w wanted s t (add_slave version) = refl

  pub all_jobs-Steps :
      (w : Job F → ℕ) (wanted : ℕ) (s t : Round F) → Steps wanted s t → all_jobs w t ≡ all_jobs w s
  all_jobs-Steps w wanted s t here = refl
  all_jobs-Steps w wanted s t (then_step {t = m} p q) =
      all_jobs-Step w wanted m t q ∙ all_jobs-Steps w wanted s m p
