-- ===== src/Master/Exclusive.antt =====
-- `Rollouts` (anyes/master.go): the goroutines that use a slave.
use trpo.Prelude.{
  ℕ, ◌+◌, ◌≤◌, ◌≡◌, ap, List, ◌∷◌, ◌++◌, false, arith, ◌==◌, ltb, if◌then◌else◌, Bool-cases, inl,
  inr, ==→eq,
}
use trpo.Master.{Managed, Job, Assignment}
use trpo.Master.Pool.{is_number, total, occurrences, is_slave, total-append}
use trpo.Master.Assigning.{assign_jobs-Handed, idle, runs}
use trpo.Master.Rounds.{
  Round, set_idle, start, Step, Steps, here, then_step, assign, finish, take_error, take_handled,
  take_added, take_result, drain, stop, succeed, send, fail, remove, give_up, handle, add_slave,
}
use trpo.Master.Conserved.{total-middle, total-snoc}
use trpo.Master.Counts.{
  given, set_idle-same, set_idle-other, occurrences-set_idle, is_number-same, is_number-other,
  given-grows, given-none_or_two, idle_less, given-new, is_slave_here, is_slave_apart, idle-remove,
  occurrences-remove, occurrences-remove_same,
}

-- What holds of the number `k`: it is that of at most one slave in the pool; one of the goroutines at
-- most has to do with it, and none while the slave is idle; a number not yet given is not used.
pub record Alone {F : Type 0} (s : Round F) (k : ℕ) : Type 0 where
  pub one :
      total (idle k) s.pool
        + total (runs k) s.running
        + total (is_number k) s.failing
        + total (is_number k) s.erring
      ≤ 1
  pub once : occurrences k s.pool + total (is_number k) s.erring ≤ 1
  pub known :
      occurrences k s.pool
        + total (runs k) s.running
        + total (is_number k) s.failing
        + total (is_number k) s.erring
      ≤ given k s.fresh

module _ {F : Type 0} where
  Alone-succeed :
      (s : Round F) (k : ℕ) (before after : List (Assignment F)) (a : Assignment F)
      → s.running ≡ before ++ a ∷ after
      → Alone s k
      → total (idle k) (set_idle a.slave s.pool)
          + total (runs k) (before ++ after)
          + total (is_number k) s.failing
          + total (is_number k) s.erring
        ≤ 1
  Alone-succeed s k before after a e h =
      let mid = total-middle (runs k) s.running before a after e in
      elim (Bool-cases (a.slave == k)) [
        | inl same ↦
            let k' : a.slave ≡ k = ==→eq a.slave k same in
            omega (
              arith,
              h.one,
              h.once,
              mid,
              is_number-same k a.slave same,
              ap (λ j. total (idle k) (set_idle j s.pool)) k',
              set_idle-same k s.pool,
            )
        | inr other ↦ omega (arith, h.one, mid, set_idle-other a.slave k s.pool other)
      ]

  pub Alone-Step :
      (wanted : ℕ) (s t : Round F) → Step wanted s t → ((k : ℕ) → Alone s k) → (k : ℕ) → Alone t k
  Alone-Step wanted s t (assign perm res pool queue p l b c e) h k =
      let g = assign_jobs-Handed perm s.pool pool s.queue queue res b e in
      record {
        one = omega (arith, (h k).one, g.idle_then k, total-append (runs k) s.running res);
        once = omega (arith, (h k).once, g.same k);
        known = elim (given-none_or_two k s.fresh) [
          | inl n ↦ omega (
            arith,
            (h k).known,
            n,
            g.idle_then k,
            g.same k,
            idle_less k s.pool,
            total-append (runs k) s.running res,
          )
          | inr n ↦ omega (
            arith,
            (h k).one,
            (h k).once,
            n,
            g.idle_then k,
            g.same k,
            total-append (runs k) s.running res,
          )
        ];
      }
  Alone-Step wanted s t (finish p l) h k = record {
    one = (h k).one;
    once = (h k).once;
    known = (h k).known;
  }
  Alone-Step wanted s t (take_error x p e) h k = record {
    one = (h k).one;
    once = (h k).once;
    known = (h k).known;
  }
  Alone-Step wanted s t (take_handled p e) h k = record {
    one = (h k).one;
    once = (h k).once;
    known = (h k).known;
  }
  Alone-Step wanted s t (take_added p e) h k = record {
    one = (h k).one;
    once = (h k).once;
    known = (h k).known;
  }
  Alone-Step wanted s t (take_result r rest p e) h k = record {
    one = (h k).one;
    once = (h k).once;
    known = (h k).known;
  }
  Alone-Step wanted s t (drain e0 r rest p e) h k = record {
    one = (h k).one;
    once = (h k).once;
    known = (h k).known;
  }
  Alone-Step wanted s t (stop x p a b c d e) h k = record {
    one = (h k).one;
    once = (h k).once;
    known = (h k).known;
  }
  Alone-Step wanted s t (send before after r e) h k = record {
    one = (h k).one;
    once = (h k).once;
    known = (h k).known;
  }
  Alone-Step wanted s t (succeed before after a r e j) h k =
      let mid = total-middle (runs k) s.running before a after e in
      let pool = occurrences-set_idle a.slave k s.pool in
      record {
        one = Alone-succeed s k before after a e (h k);
        once = omega (arith, (h k).once, pool);
        known = omega (arith, (h k).known, pool, mid);
      }
  Alone-Step wanted s t (fail before after a e) h k =
      let mid = total-middle (runs k) s.running before a after e in
      record {
        one = omega (arith, (h k).one, mid);
        once = (h k).once;
        known = omega (arith, (h k).known, mid);
      }
  Alone-Step wanted s t (remove before after j e) h k =
      let mid = total-middle (is_number k) s.failing before j after e in
      let single : occurrences j s.pool ≤ 1 = omega (arith, (h j).once) in
      let fewer = idle-remove j k s.pool single in
      let left = occurrences-remove j k s.pool single in
      record {
        one = omega (arith, (h k).one, mid, fewer);
        once = elim (Bool-cases (j == k)) [
          | inl same ↦ omega (
            arith,
            (h k).one,
            mid,
            is_number-same k j same,
            occurrences-remove_same j k s.pool same single,
          )
          | inr other ↦ omega (arith, (h k).once, left, is_number-other k j other)
        ];
        known = omega (arith, (h k).known, mid, left);
      }
  Alone-Step wanted s t (give_up before after j x e) h k =
      let mid = total-middle (is_number k) s.erring before j after e in
      record {
        one = omega (arith, (h k).one, mid);
        once = omega (arith, (h k).once, mid);
        known = omega (arith, (h k).known, mid);
      }
  Alone-Step wanted s t (handle before after j e) h k =
      let mid = total-middle (is_number k) s.erring before j after e in
      record {
        one = omega (arith, (h k).one, mid);
        once = omega (arith, (h k).once, mid);
        known = omega (arith, (h k).known, mid);
      }
  Alone-Step wanted s t (add_slave version) h k =
      let new : Managed = record { id = s.fresh; version = version; working = false } in
      let more = total-snoc (idle k) s.pool new in
      let more' = total-snoc (is_slave k) s.pool new in
      elim (Bool-cases (s.fresh == k)) [
        | inl same ↦
            let (before, after) = given-new k s.fresh same in
            let counts = is_slave_here k new same in
            record {
              one = omega (arith, (h k).known, before, more, counts, idle_less k s.pool);
              once = omega (arith, (h k).known, before, more', counts);
              known = omega (arith, (h k).known, before, after, more', counts);
            }
        | inr other ↦
            let none_more = is_slave_apart k new other in
            record {
              one = omega (arith, (h k).one, more, none_more);
              once = omega (arith, (h k).once, more', none_more);
              known = omega (arith, (h k).known, more', none_more, given-grows k s.fresh);
            }
      ]

  pub Alone-Steps :
      (wanted : ℕ) (s t : Round F) → Steps wanted s t → ((k : ℕ) → Alone s k) → (k : ℕ) → Alone t k
  Alone-Steps wanted s t here h = h
  Alone-Steps wanted s t (then_step {t = m} p q) h =
      Alone-Step wanted m t q (Alone-Steps wanted s m p h)

  pub Alone-start :
      (pool : List Managed) (fresh : ℕ) (jobs : List (Job F)) (k : ℕ)
      → occurrences k pool ≤ (if ltb k fresh then 1 else 0)
      → Alone (start pool fresh jobs) k
  Alone-start pool fresh jobs k h = record {
    one = ground (arith, idle_less k pool);
    once = ground arith;
    known = ground arith;
  }

  -- Take a pool of different slaves, with numbers below the first one that is not in use. In every state
  -- that a call of `Rollouts` comes to, for each slave: it is at most once in the pool; at most one
  -- goroutine is in its `Run`, or deals with its failure, so that no two of its methods are called at
  -- once; and none does while `assignJobs` may choose it. While `SlaveError` runs for a slave, that slave
  -- is not in the pool.
  pub rollouts_exclusive :
      (wanted : ℕ) (pool : List Managed) (fresh : ℕ) (jobs : List (Job F)) (s : Round F)
      → ((k : ℕ) → occurrences k pool ≤ (if ltb k fresh then 1 else 0))
      → Steps wanted (start pool fresh jobs) s
      → (k : ℕ)
      → (total (idle k) s.pool
            + total (runs k) s.running
            + total (is_number k) s.failing
            + total (is_number k) s.erring
          ≤ 1)
        × (occurrences k s.pool + total (is_number k) s.erring ≤ 1)
  rollouts_exclusive wanted pool fresh jobs s distinct steps k =
      let h = Alone-Steps wanted _ s steps (λ j. Alone-start pool fresh jobs j (distinct j)) k in
      (h.one, h.once)
