-- ===== src/Master/Agreeing.antt =====
-- `Update` (anyes/master.go): which slaves stay in the pool.
use trpo.Prelude.{
  ℕ, ◌≤◌, ◌<◌, ◌≡◌, refl, ap, sym, subst, ◌∙◌, List, [], ◌∷◌, Bool, true, false, Option, ◌==◌,
  if◌then◌else◌, Bool-cases, inl, inr, ==→eq, eq→==, arith,
}
use trpo.Prelude.Failure.{Error}
use trpo.Master.{Managed, remove_slave}
use trpo.Master.Pool.{total, occurrences, is_slave, room}
use trpo.Master.Removal.{total-remove_slave}
use trpo.Master.Counts.{is_number-other, others_apart, occurrences-remove_same}
use trpo.Master.Stale.{stale_less, ends, added_apart, occurrences-set_version, room_less}
use trpo.Master.Update.{
  Local, Ending, local_update, slave_update, Updating, Verdict, Answer, sum, failure, fail_slave,
  end_slave, end_all, incorrect_checksum, report_if,
}
use trpo.Master.Versions.{end-same, end-other, end-failure, end_slave-Fit}

-- A slave agrees with the local update.
abbrev pub agrees : Local → Answer → Bool
agrees local (sum c) = c == local.checksum
agrees local (failure e) = false

module _ (answer : ℕ → Answer) (slave_error : ℕ → Error → Verdict) (local : Local) where
  abbrev Distinct : Updating → Type 0
  Distinct u = (k : ℕ) → occurrences k u.pool ≤ room k u.fresh

  Distinct-end_slave :
      (u : Updating) (j : ℕ) → Distinct u → Distinct (end_slave answer slave_error local u j)
  Distinct-end_slave u j d k =
      (end_slave-Fit answer slave_error local u j k (occurrences k u.pool) (answer j) refl
        (omega (arith, d j, room_less j u.fresh))
        (record { once = d k; behind = omega (arith, stale_less local.version k u.pool) })).once

  old_apart : (k fresh : ℕ) → k < fresh → (fresh == k) ≡ false
  old_apart k fresh l = ground arith

  -- A failure of the slave `j` leaves the number of slaves of another number that was in use.
  fail_slave-apart :
      (u : Updating) (j : ℕ) (e : Error) (k : ℕ)
      → Distinct u
      → k < u.fresh
      → (j == k) ≡ false
      → occurrences k (fail_slave answer slave_error local u j e).pool ≡ occurrences k u.pool
  unfolding fail_slave
  fail_slave-apart u j e k d l other =
      let left =
        total-remove_slave (is_slave k) j u.pool (omega (arith, d j, room_less j u.fresh))
        ∙ others_apart j k u.pool other in
      let new : Managed = record { id = u.fresh; version = local.version; working = false } in
      elim (Bool-cases (slave_error j e).readd) [
        | inl again ↦
            rw (again, fail_slave)
              (added_apart k (remove_slave j u.pool) new (old_apart k u.fresh l) ∙ left)
        | inr gone ↦ rw (gone, fail_slave) left
      ]

  fail_slave-gone :
      (u : Updating) (j : ℕ) (e : Error)
      → Distinct u
      → j < u.fresh
      → occurrences j (fail_slave answer slave_error local u j e).pool ≡ 0
  unfolding fail_slave
  fail_slave-gone u j e d l =
      let left =
        occurrences-remove_same j j u.pool (eq→== j j refl)
          (omega (arith, d j, room_less j u.fresh)) in
      let new : Managed = record { id = u.fresh; version = local.version; working = false } in
      elim (Bool-cases (slave_error j e).readd) [
        | inl again ↦
            rw (again, fail_slave)
              (added_apart j (remove_slave j u.pool) new (old_apart j u.fresh l) ∙ left)
        | inr gone ↦ rw (gone, fail_slave) left
      ]

  fail_slave-fresh :
      (u : Updating) (j : ℕ) (e : Error) (k : ℕ)
      → k < u.fresh
      → k < (fail_slave answer slave_error local u j e).fresh
  unfolding fail_slave
  fail_slave-fresh u j e k l = elim (Bool-cases (slave_error j e).readd) [
    | inl again ↦ rw (again, fail_slave) (omega arith)
    | inr gone ↦ rw (gone, fail_slave) l
  ]

  end_slave-fresh :
      (u : Updating) (j k : ℕ) (a : Answer)
      → answer j ≡ a
      → k < u.fresh
      → k < (end_slave answer slave_error local u j).fresh
  end_slave-fresh u j k (sum c) e l = elim (Bool-cases (c == local.checksum)) [
    | inl same ↦ rw (end-same answer slave_error local u j c e same) l
    | inr other ↦
        rw (end-other answer slave_error local u j c e other)
          (fail_slave-fresh u j incorrect_checksum k l)
  ]
  end_slave-fresh u j k (failure x) e l =
      rw (end-failure answer slave_error local u j x e) (fail_slave-fresh u j x k l)

  end_slave-apart :
      (u : Updating) (j k : ℕ) (a : Answer)
      → answer j ≡ a
      → Distinct u
      → k < u.fresh
      → (j == k) ≡ false
      → occurrences k (end_slave answer slave_error local u j).pool ≡ occurrences k u.pool
  end_slave-apart u j k (sum c) e d l other = elim (Bool-cases (c == local.checksum)) [
    | inl same ↦
        rw (end-same answer slave_error local u j c e same)
          (occurrences-set_version k j local.version u.pool)
    | inr wrong ↦
        rw (end-other answer slave_error local u j c e wrong)
          (fail_slave-apart u j incorrect_checksum k d l other)
  ]
  end_slave-apart u j k (failure x) e d l other =
      rw (end-failure answer slave_error local u j x e) (fail_slave-apart u j x k d l other)

  end_slave-agrees :
      (u : Updating) (j k : ℕ) (a : Answer)
      → answer j ≡ a
      → agrees local a ≡ true
      → occurrences k (end_slave answer slave_error local u j).pool ≡ occurrences k u.pool
  end_slave-agrees u j k (sum c) e same =
      rw (end-same answer slave_error local u j c e same)
        (occurrences-set_version k j local.version u.pool)
  end_slave-agrees u j k (failure x) e same = cc

  end_slave-differs :
      (u : Updating) (j : ℕ) (a : Answer)
      → answer j ≡ a
      → agrees local a ≡ false
      → Distinct u
      → j < u.fresh
      → occurrences j (end_slave answer slave_error local u j).pool ≡ 0
  end_slave-differs u j (sum c) e wrong d l =
      rw (end-other answer slave_error local u j c e wrong)
        (fail_slave-gone u j incorrect_checksum d l)
  end_slave-differs u j (failure x) e wrong d l =
      rw (end-failure answer slave_error local u j x e) (fail_slave-gone u j x d l)

  gone_by_itself :
      (u : Updating) (j k : ℕ)
      → Distinct u
      → k < u.fresh
      → agrees local (answer k) ≡ false
      → (j == k) ≡ true
      → occurrences k (end_slave answer slave_error local u j).pool ≡ 0
  gone_by_itself u j k d l a same =
      let k' : k ≡ j = sym (==→eq j k same) in
      subst (λ i. occurrences k (end_slave answer slave_error local u i).pool ≡ 0) k'
        (end_slave-differs u k (answer k) refl a d l)

  -- A slave that agrees stays through all ends.
  end_all-agrees :
      (order : List Ending) (u : Updating) (k : ℕ)
      → Distinct u
      → k < u.fresh
      → agrees local (answer k) ≡ true
      → occurrences k (end_all answer slave_error local u order).pool ≡ occurrences k u.pool
  unfolding end_all
  end_all-agrees [] u k d l a = refl
  end_all-agrees (local_update ∷ es) u k d l a =
      end_all-agrees es (record u { error = report_if local.error u.error }) k d l a
  end_all-agrees (slave_update j ∷ es) u k d l a =
      end_all-agrees es (end_slave answer slave_error local u j) k (Distinct-end_slave u j d)
        (end_slave-fresh u j k (answer j) refl l) a
      ∙ elim (Bool-cases (j == k)) [
        | inl same ↦
            end_slave-agrees u j k (answer j) refl
              (ap (λ i. agrees local (answer i)) (==→eq j k same) ∙ a)
        | inr other ↦ end_slave-apart u j k (answer j) refl d l other
      ]

  -- One that is gone does not come back.
  end_all-gone :
      (order : List Ending) (u : Updating) (k : ℕ)
      → Distinct u
      → k < u.fresh
      → occurrences k u.pool ≡ 0
      → occurrences k (end_all answer slave_error local u order).pool ≡ 0
  unfolding end_all
  end_all-gone [] u k d l h = h
  end_all-gone (local_update ∷ es) u k d l h =
      end_all-gone es (record u { error = report_if local.error u.error }) k d l h
  end_all-gone (slave_update j ∷ es) u k d l h =
      end_all-gone es (end_slave answer slave_error local u j) k (Distinct-end_slave u j d)
        (end_slave-fresh u j k (answer j) refl l)
        (elim (Bool-cases (j == k)) [
          | inl same ↦ elim (Bool-cases (agrees local (answer k))) [
            | inl a ↦
                end_slave-agrees u j k (answer j) refl
                  (ap (λ i. agrees local (answer i)) (==→eq j k same) ∙ a)
                ∙ h
            | inr a ↦ gone_by_itself u j k d l a same
          ]
          | inr other ↦ end_slave-apart u j k (answer j) refl d l other ∙ h
        ])

  -- One that does not agree is gone when its goroutine has ended.
  end_all-differs :
      (order : List Ending) (u : Updating) (k : ℕ)
      → Distinct u
      → k < u.fresh
      → agrees local (answer k) ≡ false
      → 0 < total (ends k) order
      → occurrences k (end_all answer slave_error local u order).pool ≡ 0
  unfolding end_all
  end_all-differs [] u k d l a due = absurd (omega (arith, due))
  end_all-differs (local_update ∷ es) u k d l a due =
      end_all-differs es (record u { error = report_if local.error u.error }) k d l a
        (omega (arith, due))
  end_all-differs (slave_update j ∷ es) u k d l a due =
      let u' = end_slave answer slave_error local u j in
      let l' = end_slave-fresh u j k (answer j) refl l in
      elim (Bool-cases (j == k)) [
        | inl same ↦
            end_all-gone es u' k (Distinct-end_slave u j d) l' (gone_by_itself u j k d l a same)
        | inr other ↦
            end_all-differs es u' k (Distinct-end_slave u j d) l' a
              (omega (arith, due, is_number-other k j other))
      ]

module _ (answer : ℕ → Answer) (slave_error : ℕ → Error → Verdict) (local : Local) where
  -- Take a pool of different slaves. When the goroutines of an update have ended, in whatever order, then
  -- a slave of the pool whose goroutine was one of them is still there exactly if its update succeeded
  -- with the checksum of the local parameters; one that was removed comes back under a new number only.
  end_all-agreeing :
      (order : List Ending) (pool : List Managed) (fresh : ℕ) (error : Option Error) (k : ℕ)
      → ((j : ℕ) → occurrences j pool ≤ room j fresh)
      → k < fresh
      → 0 < total (ends k) order
      → occurrences k
          (end_all answer slave_error local
            (record { pool = pool; fresh = fresh; error = error })
            order).pool
        ≡ (if agrees local (answer k) then occurrences k pool else 0)
  end_all-agreeing order pool fresh error k d l due =
      let u : Updating = record { pool = pool; fresh = fresh; error = error } in
      elim (Bool-cases (agrees local (answer k))) [
        | inl a ↦ rw a (end_all-agrees answer slave_error local order u k d l a)
        | inr a ↦ rw a (end_all-differs answer slave_error local order u k d l a due)
      ]
