-- ===== src/Master/Manned.antt =====
-- `Rollouts` (anyes/master.go): the slaves that work and their goroutines, and what `select` waits for.
use trpo.Prelude.{
  ℕ, ◌+◌, ◌*◌, ◌≤◌, ◌≡◌, refl, ap, subst, List, [], ◌∷◌, ◌++◌, false, arith, length, All, ◌==◌, ltb,
  if◌then◌else◌, Bool-cases, inl, inr, ==→eq, eq→==,
}
use trpo.Prelude.Float.{Float}
use trpo.Master.{Managed, Assignment, make_jobs, remove_slave}
use trpo.Master.Pool.{total, occurrences, is_slave, is_number, other_than, total-append}
use trpo.Master.Assigning.{assign_jobs-Handed, idle, runs}
use trpo.Master.Rounds.{
  selecting, Round, set_idle, start, Step, Steps, here, then_step, assign, finish, take_error,
  take_handled, take_added, take_result, drain, stop, succeed, send, fail, remove, give_up, handle,
  add_slave,
}
use trpo.Master.Counts.{
  is_number-other, set_idle-same, set_idle-other, occurrences-set_idle, others_apart,
  occurrences-remove_same,
}
use trpo.Master.Removal.{total-remove_slave}
use trpo.Master.Conserved.{total-middle, total-snoc}
use trpo.Master.Exclusive.{Alone}
use trpo.Master.Exclusive.{Alone-Steps, Alone-start}
use trpo.Master.Outcome.{Reached, counted}
use trpo.Master.Progress.{unused, signals, ReadyAt, ReadyAt-Steps}

idle_apart :
    (j k : ℕ) (pool : List Managed)
    → (j == k) ≡ false
    → total (other_than j (idle k)) pool ≡ total (idle k) pool
idle_apart j k [] h = refl
idle_apart j k (m ∷ pool) h = ground (arith, idle_apart j k pool h)

runs-other : {F : Type 0} (k : ℕ) (a : Assignment F) → (a.slave == k) ≡ false → runs k a ≡ 0
runs-other k a e = rw e refl

idle-unused : (k : ℕ) (pool : List Managed) → total (idle k) pool ≤ total unused pool
idle-unused k [] = omega arith
idle-unused k (m ∷ pool) = ground (arith, idle-unused k pool)

empty : (pool : List Managed) → ((k : ℕ) → occurrences k pool ≤ 0) → pool ≡ []
empty [] h = refl
empty (m ∷ pool) h = absurd (omega (arith, h m.id, itself))
  where
    itself : is_slave m.id m ≡ 1
    itself = rw (eq→== m.id m.id refl) refl

no_runs : {F : Type 0} (k : ℕ) (as' : List (Assignment F)) → length as' ≡ 0 → total (runs k) as' ≡ 0
no_runs k [] e = refl
no_runs k (a ∷ as') e = absurd (omega arith)

no_numbers : (k : ℕ) (js : List ℕ) → length js ≡ 0 → total (is_number k) js ≡ 0
no_numbers k [] e = refl
no_numbers k (j ∷ js) e = absurd (omega arith)

idle_at_start :
    (k : ℕ) (pool : List Managed)
    → All (λ m. m.working ≡ false) pool
    → occurrences k pool ≤ total (idle k) pool
idle_at_start k [] a = omega arith
idle_at_start k (m ∷ pool) (w, a) = omega (arith, free k m w, idle_at_start k pool a)
  where
    free : (k : ℕ) (m : Managed) → m.working ≡ false → idle k m ≡ is_slave k m
    free k m w = rw w refl

module _ {F : Type 0} where
  -- Every slave of the number `k` that works has a goroutine.
  abbrev Manned : Round F → ℕ → Type 0
  Manned s k =
      occurrences k s.pool
      ≤ total (idle k) s.pool + total (runs k) s.running + total (is_number k) s.failing

  Manned-remove :
      (s : Round F) (j k : ℕ) (before after : List ℕ)
      → s.failing ≡ before ++ j ∷ after
      → occurrences j s.pool ≤ 1
      → Manned s k
      → occurrences k (remove_slave j s.pool)
        ≤ total (idle k) (remove_slave j s.pool)
          + total (runs k) s.running
          + total (is_number k) (before ++ after)
  Manned-remove s j k before after e once h =
      let mid = total-middle (is_number k) s.failing before j after e in
      elim (Bool-cases (j == k)) [
        | inl same ↦ omega (arith, occurrences-remove_same j k s.pool same once)
        | inr other ↦ omega (
          arith,
          h,
          mid,
          is_number-other k j other,
          total-remove_slave (is_slave k) j s.pool once,
          others_apart j k s.pool other,
          total-remove_slave (idle k) j s.pool once,
          idle_apart j k s.pool other,
        )
      ]

  Manned-succeed :
      (s : Round F) (k : ℕ) (before after : List (Assignment F)) (a : Assignment F)
      → s.running ≡ before ++ a ∷ after
      → Manned s k
      → occurrences k (set_idle a.slave s.pool)
        ≤ total (idle k) (set_idle a.slave s.pool)
          + total (runs k) (before ++ after)
          + total (is_number k) s.failing
  Manned-succeed s k before after a e h =
      let mid = total-middle (runs k) s.running before a after e in
      elim (Bool-cases (a.slave == k)) [
        | inl same ↦
            let k' : a.slave ≡ k = ==→eq a.slave k same in
            omega (
              arith,
              occurrences-set_idle a.slave k s.pool,
              ap (λ j. total (idle k) (set_idle j s.pool)) k',
              set_idle-same k s.pool,
            )
        | inr other ↦ omega (
          arith,
          h,
          mid,
          set_idle-other a.slave k s.pool other,
          occurrences-set_idle a.slave k s.pool,
          runs-other k a other,
        )
      ]

  Manned-Step :
      (wanted : ℕ) (s t : Round F)
      → Step wanted s t
      → ((k : ℕ) → Alone s k)
      → (k : ℕ) → Manned s k
      → Manned t k
  Manned-Step wanted s t (assign perm res pool queue p l b c e) a k h =
      let g = assign_jobs-Handed perm s.pool pool s.queue queue res b e in
      omega (arith, h, g.idle_then k, g.same k, total-append (runs k) s.running res)
  Manned-Step wanted s t (finish p l) a k h = h
  Manned-Step wanted s t (take_error x p e) a k h = h
  Manned-Step wanted s t (take_handled p e) a k h = h
  Manned-Step wanted s t (take_added p e) a k h = h
  Manned-Step wanted s t (take_result r rest p e) a k h = h
  Manned-Step wanted s t (drain e0 r rest p e) a k h = h
  Manned-Step wanted s t (stop x p b c d f e) a k h = h
  Manned-Step wanted s t (succeed before after b r e j) a k h =
      Manned-succeed s k before after b e h
  Manned-Step wanted s t (send before after r e) a k h = h
  Manned-Step wanted s t (fail before after b e) a k h =
      omega (arith, h, total-middle (runs k) s.running before b after e)
  Manned-Step wanted s t (remove before after j e) a k h =
      Manned-remove s j k before after e (omega (arith, (a j).once)) h
  Manned-Step wanted s t (give_up before after j x e) a k h = h
  Manned-Step wanted s t (handle before after j e) a k h = h
  Manned-Step wanted s t (add_slave version) a k h =
      let new : Managed = record { id = s.fresh; version = version; working = false } in
      omega (arith, h, total-snoc (idle k) s.pool new, total-snoc (is_slave k) s.pool new)

  Manned-Steps :
      (wanted : ℕ) (s t : Round F)
      → Steps wanted s t
      → ((k : ℕ) → Alone s k)
      → (k : ℕ) → Manned s k
      → Manned t k
  Manned-Steps wanted s t here a k h = h
  Manned-Steps wanted s t (then_step {t = m} p q) a k h =
      Manned-Step wanted m t q (Alone-Steps wanted s m p a) k (Manned-Steps wanted s m p a k h)

module _ {F : Type 0} ⦃fl : Float F⦄ (stddev : F) (seeds : List ℕ) (pool : List Managed)
    (fresh : ℕ) where
  -- Take a pool of different slaves, with numbers below the first one that is not in use, of which none
  -- works when `Rollouts` is called. Suppose that the call is at its `select`, that no goroutine is under
  -- way, and that no channel that it reads holds anything. Then the pool is empty. So while there is a
  -- slave the call never waits in vain, and what is left to wait for is `AddSlave`.
  pub rollouts_wait :
      (s : Round F)
      → ((k : ℕ) → occurrences k pool ≤ (if ltb k fresh then 1 else 0))
      → All (λ m. m.working ≡ false) pool
      → Reached stddev seeds pool fresh s
      → s.phase ≡ selecting
      → signals s ≡ 0
      → s.pool ≡ []
  unfolding ReadyAt signals
  rollouts_wait s distinct free steps at_select silent =
      let first = start pool fresh (make_jobs stddev seeds) in
      let wanted = 2 * length seeds in
      let ready : ReadyAt wanted s selecting =
        subst (ReadyAt wanted s) at_select (ReadyAt-Steps wanted first s steps tt) in
      let (few, choice) = ready in
      let manned = λ (k : ℕ).
        Manned-Steps wanted first s steps
          (λ j. Alone-start pool fresh (make_jobs stddev seeds) j (distinct j)) k
          (omega (arith, idle_at_start k pool free)) in
      elim choice [
        | inl loud ↦ absurd (omega arith)
        | inr (inl no_jobs) ↦
            absurd (omega (arith, counted stddev seeds pool fresh s steps, ap length no_jobs))
        | inr (inr all_work) ↦ empty s.pool (λ k. omega (
          arith,
          manned k,
          idle-unused k s.pool,
          all_work,
          no_runs k s.running (omega arith),
          no_numbers k s.failing (omega arith),
        ))
      ]
