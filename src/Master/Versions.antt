-- ===== src/Master/Versions.antt =====
-- `Update` (anyes/master.go): the versions of the slaves in the pool.
use trpo.Prelude.{
  ℕ, suc, ◌+◌, ◌≤◌, ◌<◌, ◌≡◌, ◌⊎◌, refl, ap, sym, subst, List, [], ◌∷◌, ◌++◌, true, false, Option,
  none, ◌==◌, ltb, Bool-cases, inl, inr, ==→eq, eq→==, arith, All,
}
use trpo.Prelude.Failure.{Error, ok}
use trpo.Master.{Managed, remove_slave}
use trpo.Master.Pool.{is_number, total, occurrences, room}
use trpo.Master.Counts.{is_number-other, occurrences-remove, occurrences-remove_same}
use trpo.Master.Update.{
  Local, Ending, local_update, slave_update, Updating, Verdict, Answer, sum, failure, chosen,
  set_version, fail_slave, end_slave, end_all, master_update, ctx_if, report_if, incorrect_checksum,
}
use trpo.Master.Stale.{
  stale, ends, same_version, stale_less, occurrences-set_version, stale-set_version_same,
  stale-set_version_less, stale-remove, added_here, added_apart, stale-added, room-new, room-grows,
  room_less,
}

module _ (answer : ℕ → Answer) (slave_error : ℕ → Error → Verdict) (local : Local) where
  -- What holds of the number `k`, of which `due` goroutines are still to end.
  pub record Fit (u : Updating) (k due : ℕ) : Type 0 where
    pub once : occurrences k u.pool ≤ room k u.fresh
    pub behind : total (stale local.version k) u.pool ≤ due

  removed-Fit :
      (u : Updating) (j k due : ℕ) (e : Option Error)
      → occurrences j u.pool ≤ 1
      → Fit u k (is_number k j + due)
      → Fit (record { pool = remove_slave j u.pool; fresh = u.fresh; error = e }) k due
  removed-Fit u j k due e single h =
      let less = occurrences-remove j k u.pool single in
      record {
        once = omega (arith, h.once, less);
        behind = elim (Bool-cases (j == k)) [
          | inl same ↦ omega (
            arith,
            occurrences-remove_same j k u.pool same single,
            stale_less local.version k (remove_slave j u.pool),
          )
          | inr other ↦ omega (
            arith,
            h.behind,
            is_number-other k j other,
            stale-remove local.version j k u.pool single,
          )
        ];
      }

  added-Fit :
      (u : Updating) (k due : ℕ) (m : Managed)
      → m.id ≡ u.fresh
      → m.version ≡ local.version
      → Fit u k due
      → Fit (record { pool = u.pool ++ (m ∷ []); fresh = suc u.fresh; error = u.error }) k due
  added-Fit u k due m e v h = record {
    once = elim (Bool-cases (u.fresh == k)) [
      | inl same ↦ omega (
        arith,
        h.once,
        (room-new k u.fresh same).0,
        (room-new k u.fresh same).1,
        added_here k u.pool m (rw e same),
      )
      | inr other ↦ omega (arith, h.once, room-grows k u.fresh, added_apart k u.pool m (rw e other))
    ];
    behind = omega (arith, h.behind, stale-added local.version k u.pool m v);
  }

  fail_slave-Fit :
      (u : Updating) (j : ℕ) (e : Error) (k due : ℕ)
      → occurrences j u.pool ≤ 1
      → Fit u k (is_number k j + due)
      → Fit (fail_slave answer slave_error local u j e) k due
  unfolding fail_slave
  fail_slave-Fit u j e k due single h =
      let verdict = slave_error j e in
      let left = removed-Fit u j k due (report_if verdict.error u.error) single h in
      elim (Bool-cases verdict.readd) [
        | inl again ↦
            rw (again, fail_slave)
              (added-Fit _ k due (record { id = u.fresh; version = local.version; working = false })
                refl refl left)
        | inr gone ↦ rw (gone, fail_slave) left
      ]

  updated-Fit :
      (u : Updating) (j k due : ℕ)
      → Fit u k (is_number k j + due)
      → Fit (record u { pool = set_version j local.version u.pool }) k due
  updated-Fit u j k due h = record {
    once = omega (arith, h.once, occurrences-set_version k j local.version u.pool);
    behind = elim (Bool-cases (j == k)) [
      | inl same ↦
          let k' : j ≡ k = ==→eq j k same in
          omega (
            arith,
            ap (λ i. total (stale local.version k) (set_version i local.version u.pool)) k',
            stale-set_version_same k local.version u.pool,
          )
      | inr other ↦ omega (
        arith,
        h.behind,
        is_number-other k j other,
        stale-set_version_less k j local.version u.pool,
      )
    ];
  }

  -- How the goroutine of a slave ends, by its answer.
  pub end-same :
      (u : Updating) (j c : ℕ)
      → answer j ≡ sum c
      → (c == local.checksum) ≡ true
      → end_slave answer slave_error local u j
        ≡ record u { pool = set_version j local.version u.pool }
  unfolding end_slave
  end-same u j c e same = rw (e, same, end_slave) refl

  pub end-other :
      (u : Updating) (j c : ℕ)
      → answer j ≡ sum c
      → (c == local.checksum) ≡ false
      → end_slave answer slave_error local u j
        ≡ fail_slave answer slave_error local u j incorrect_checksum
  unfolding end_slave
  end-other u j c e other = rw (e, other, end_slave) refl

  pub end-failure :
      (u : Updating) (j : ℕ) (x : Error)
      → answer j ≡ failure x
      → end_slave answer slave_error local u j ≡ fail_slave answer slave_error local u j x
  unfolding end_slave
  end-failure u j x e = rw (e, end_slave) refl

  pub end_slave-Fit :
      (u : Updating) (j k due : ℕ) (a : Answer)
      → answer j ≡ a
      → occurrences j u.pool ≤ 1
      → Fit u k (is_number k j + due)
      → Fit (end_slave answer slave_error local u j) k due
  end_slave-Fit u j k due (sum c) e single h = elim (Bool-cases (c == local.checksum)) [
    | inl same ↦ subst (λ u'. Fit u' k due) (sym (end-same u j c e same)) (updated-Fit u j k due h)
    | inr other ↦
        subst (λ u'. Fit u' k due) (sym (end-other u j c e other))
          (fail_slave-Fit u j incorrect_checksum k due single h)
  ]
  end_slave-Fit u j k due (failure x) e single h =
      subst (λ u'. Fit u' k due) (sym (end-failure u j x e)) (fail_slave-Fit u j x k due single h)

  end_all-Fit :
      (order : List Ending) (u : Updating)
      → ((k : ℕ) → Fit u k (total (ends k) order))
      → (k : ℕ) → Fit (end_all answer slave_error local u order) k 0
  unfolding end_all
  end_all-Fit [] u h k = h k
  end_all-Fit (local_update ∷ es) u h k =
      end_all-Fit es (record u { error = report_if local.error u.error })
        (λ j. record { once = (h j).once; behind = omega (arith, (h j).behind) }) k
  end_all-Fit (slave_update i ∷ es) u h k =
      end_all-Fit es (end_slave answer slave_error local u i)
        (λ j.
          end_slave-Fit u i j (total (ends j) es) (answer i) refl
            (omega (arith, (h i).once, room_less i u.fresh)) (h j))
        k

All-current :
    (v : ℕ) (pool : List Managed)
    → ((k : ℕ) → total (stale v k) pool ≤ 0)
    → All (λ m. m.version ≡ v) pool
All-current v [] h = tt
All-current v (m ∷ pool) h =
    (current (Bool-cases (m.version == v)) (h m.id), All-current v pool (λ k. omega (arith, h k)))
  where
    current :
        ((m.version == v) ≡ true) ⊎ ((m.version == v) ≡ false)
        → total (stale v m.id) (m ∷ pool) ≤ 0
        → m.version ≡ v
    current (inl e) l = ==→eq m.version v e
    current (inr e) l = absurd (omega (arith, l, counts e))
      where
        counts : (m.version == v) ≡ false → stale v m.id m ≡ 1
        counts e = rw (e, same_version m.id) refl

-- Every slave that has not got the new version takes part.
abbrev Chosen : ℕ → ℕ → List Managed → List ℕ → Type 0
Chosen old new pool ks =
    (chosen old pool ≡ ok ks) × ((k : ℕ) → total (stale new k) pool ≤ total (is_number k) ks)

newer :
    (old new : ℕ) (m : Managed) (pool : List Managed) (ks : List ℕ)
    → old < new
    → m.version ≡ new
    → Chosen old new pool ks
    → Chosen old new (m ∷ pool) ks
unfolding chosen
newer old new m pool ks l e (c, h) =
    (ground (arith, c), λ k. ground (arith, h k, eq→== m.version new e))

level : (a b : ℕ) → a ≡ b → ltb a b ≡ false
level a b e = ground arith

older :
    (old new : ℕ) (m : Managed) (pool : List Managed) (ks : List ℕ)
    → m.version ≡ old
    → Chosen old new pool ks
    → Chosen old new (m ∷ pool) (m.id ∷ ks)
unfolding chosen
older old new m pool ks e (c, h) = (
  rw (level old m.version (sym e), level m.version old e, c, chosen) refl,
  λ k. ground (arith, h k),
)

All-Chosen :
    (old new : ℕ) (pool : List Managed)
    → old < new
    → All (λ m. (m.version ≡ old) ⊎ (m.version ≡ new)) pool
    → (ks : List ℕ) × Chosen old new pool ks
unfolding chosen
All-Chosen old new [] l a = ([], (refl, λ k. omega arith))
All-Chosen old new (m ∷ pool) l (inl e, as') =
    let (ks, h) = All-Chosen old new pool l as' in (m.id ∷ ks, older old new m pool ks e h)
All-Chosen old new (m ∷ pool) l (inr e, as') =
    let (ks, h) = All-Chosen old new pool l as' in (ks, newer old new m pool ks l e h)

module _ (answer : ℕ → Answer) (slave_error : ℕ → Error → Verdict) (local : Local) where
  -- Take a pool of different slaves, each of the old version or of the new one, as a slave that was added
  -- right after the local update has. `Update` does not panic; and if the goroutines of the slaves that
  -- take part end, in whatever order and whatever the slaves answer, each slave that is then in the pool
  -- has the new version.
  pub update_versions :
      (old : ℕ) (order : List Ending) (pool : List Managed) (fresh : ℕ)
      → old < local.version
      → All (λ m. (m.version ≡ old) ⊎ (m.version ≡ local.version)) pool
      → ((k : ℕ) → occurrences k pool ≤ room k fresh)
      → ((ks : List ℕ) (k : ℕ)
          → chosen old pool ≡ ok ks
          → total (ends k) order ≡ total (is_number k) ks)
      → (e : Option Error) × (pool' : List Managed) × (master_update answer slave_error local old
            order pool fresh
          ≡ ok (e, pool'))
        × All (λ m. m.version ≡ local.version) pool'
  unfolding master_update
  update_versions old order pool fresh l versions distinct complete =
      let (ks, (c, behind)) = All-Chosen old local.version pool l versions in
      let u : Updating = record { pool = pool; fresh = fresh; error = none } in
      let done = end_all answer slave_error local u order in
      let fits =
        end_all-Fit answer slave_error local order u
          (λ k. record { once = distinct k; behind = omega (arith, behind k, complete ks k c) }) in
      (
        ctx_if done.error,
        done.pool,
        rw (c, master_update) refl,
        All-current local.version done.pool (λ k. (fits k).behind),
      )
