-- ===== src/Master/Assigning.antt =====
-- `assignJobs` (anyes/master.go): whom it gives jobs to, and when it stops.
use trpo.Prelude.{
  ℕ, zero, suc, ◌+◌, ◌<◌, ◌≡◌, ◌⊎◌, refl, ap, sym, subst, ◌∙◌, List, [], ◌∷◌, ◌++◌, map, true,
  false, some, arith, length, length-set, get_elem?, get_elem?-some, set, ◌==◌, if◌then◌else◌,
  Bool-cases, inl, inr, All,
}
use trpo.Master.{Managed, Job, Assignment, assign_jobs}
use trpo.Master.Pool.{total, occurrences, is_slave}

-- 1 for a slave of the number `k` that is not working.
abbrev pub idle : ℕ → Managed → ℕ
idle k m = if m.working then 0 else is_slave k m

-- 1 for an assignment to the slave `k`.
abbrev pub runs : {F : Type 0} → ℕ → Assignment F → ℕ
runs k a = if a.slave == k then 1 else 0

-- The slave at an index works.
abbrev pub Busy : List Managed → ℕ → Type 0
Busy slaves i = (s : Managed) × (get_elem? slaves i ≡ some s) × (s.working ≡ true)

total-set_slave :
    (w : Managed → ℕ) (slaves : List Managed) (i : ℕ) (s x : Managed)
    → get_elem? slaves i ≡ some s
    → total w (set slaves i x) + w s ≡ total w slaves + w x
total-set_slave w [] i s x e = cc
total-set_slave w (y ∷ slaves) zero s x e = let same : y ≡ s = cc in omega (arith, ap w same)
total-set_slave w (y ∷ slaves) (suc i) s x e = omega (arith, total-set_slave w slaves i s x e)

Busy-set :
    (slaves : List Managed) (i j : ℕ) (x : Managed)
    → x.working ≡ true
    → Busy slaves i
    → Busy (set slaves j x) i
Busy-set [] i j x h b = b
Busy-set (y ∷ slaves) zero zero x h b = (x, refl, h)
Busy-set (y ∷ slaves) zero (suc j) x h b = b
Busy-set (y ∷ slaves) (suc i) zero x h b = b
Busy-set (y ∷ slaves) (suc i) (suc j) x h b = Busy-set slaves i j x h b

Busy-set_here :
    (slaves : List Managed) (i : ℕ) (s x : Managed)
    → get_elem? slaves i ≡ some s
    → x.working ≡ true
    → Busy (set slaves i x) i
Busy-set_here [] i s x e h = cc
Busy-set_here (y ∷ slaves) zero s x e h = (x, refl, h)
Busy-set_here (y ∷ slaves) (suc i) s x e h = Busy-set_here slaves i s x e h

idle-free : (k : ℕ) (s : Managed) → s.working ≡ false → idle k s ≡ is_slave k s
idle-free k s e = rw e refl

below_set :
    (perm : List ℕ) (slaves : List Managed) (i : ℕ) (x : Managed)
    → All (λ j. j < length slaves) perm
    → All (λ j. j < length (set slaves i x)) perm
below_set [] slaves i x l = tt
below_set (j ∷ perm) slaves i x (l, ls) =
    (omega (arith, length-set slaves i x), below_set perm slaves i x ls)

Busy-set_rest :
    (known : List ℕ) (slaves : List Managed) (i : ℕ) (x : Managed)
    → x.working ≡ true
    → All (Busy slaves) known
    → All (Busy (set slaves i x)) known
Busy-set_rest [] slaves i x h b = tt
Busy-set_rest (j ∷ known) slaves i x h (b, bs) =
    (Busy-set slaves j i x h b, Busy-set_rest known slaves i x h bs)

pub some-eq : {A : Type 0} (a b : A) → some a ≡ some b → a ≡ b
some-eq a b e = cc

module _ {F : Type 0} where
  abbrev pub job_of : Assignment F → Job F
  job_of a = a.job

  -- What one call makes of the slaves and of the jobs.
  pub record Handed (slaves : List Managed) (jobs : List (Job F)) (res : List (Assignment F))
      (slaves' : List Managed) (jobs' : List (Job F)) : Type 0 where
    pub taken : jobs ≡ map job_of res ++ jobs'
    pub idle_then : (k : ℕ) → total (idle k) slaves ≡ total (idle k) slaves' + total (runs k) res
    pub same : (k : ℕ) → occurrences k slaves ≡ occurrences k slaves'
    pub length_kept : length slaves ≡ length slaves'

  unchanged : (slaves : List Managed) (jobs : List (Job F)) → Handed slaves jobs [] slaves jobs
  unchanged slaves jobs = record {
    taken = refl;
    idle_then = λ k. omega arith;
    same = λ k. refl;
    length_kept = refl;
  }

  -- What one call gives: the outcome, and the indices in `known`, where slaves work, still so; either no
  -- job is left or the slaves at all of `perm` work.
  abbrev pub Hands : List ℕ → List ℕ → List Managed → List (Job F) → Type 0
  Hands known perm slaves jobs =
      (res : List (Assignment F)) × (slaves' : List Managed) × (jobs' : List (Job F)) × (assign_jobs
          perm slaves jobs
        ≡ some (res, slaves', jobs'))
      × Handed slaves jobs res slaves' jobs'
      × All (Busy slaves') known
      × ((jobs' ≡ []) ⊎ All (Busy slaves') perm)

  skip :
      (known perm : List ℕ) (slaves : List Managed) (job : Job F) (jobs : List (Job F)) (i : ℕ)
      (s : Managed)
      → get_elem? slaves i ≡ some s
      → s.working ≡ true
      → Hands (i ∷ known) perm slaves (job ∷ jobs)
      → Hands known (i ∷ perm) slaves (job ∷ jobs)
  unfolding assign_jobs
  skip known perm slaves job jobs i s e w (res, slaves', jobs', r, h, (b, bs), ends) = (
    res,
    slaves',
    jobs',
    rw (e, w, assign_jobs) r,
    h,
    bs,
    elim ends [ inl none_left ↦ inl none_left | inr all ↦ inr (b, all) ],
  )

  hand :
      (known perm : List ℕ) (slaves : List Managed) (job : Job F) (jobs : List (Job F)) (i : ℕ)
      (s : Managed)
      → get_elem? slaves i ≡ some s
      → s.working ≡ false
      → Hands (i ∷ known) perm (set slaves i (record s { working = true })) jobs
      → Hands known (i ∷ perm) slaves (job ∷ jobs)
  unfolding assign_jobs
  hand known perm slaves job jobs i s e w (res, slaves', jobs', r, h, (b, bs), ends) = (
    record { slave = s.id; job = job } ∷ res,
    slaves',
    jobs',
    rw (e, w, r, assign_jobs) refl,
    record {
      taken = ap (◌∷◌ job) h.taken;
      idle_then = λ k. omega (
        arith,
        h.idle_then k,
        total-set_slave (idle k) slaves i s (record s { working = true }) e,
        idle-free k s w,
      );
      same = λ k. omega (
        arith,
        h.same k,
        total-set_slave (is_slave k) slaves i s (record s { working = true }) e,
      );
      length_kept = omega (arith, h.length_kept, length-set slaves i (record s { working = true }));
    },
    bs,
    elim ends [ inl none_left ↦ inl none_left | inr all ↦ inr (b, all) ],
  )

  no_jobs :
      (perm : List ℕ) (slaves : List Managed)
      → All (λ i. i < length slaves) perm
      → assign_jobs {F = F} perm slaves [] ≡ some ([], slaves, [])
  unfolding assign_jobs
  no_jobs [] slaves l = refl
  no_jobs (i ∷ perm) slaves (l, ls) =
      let (s, e) = get_elem?-some slaves i l in
      elim (Bool-cases s.working) [
        | inl w ↦ rw (e, w, assign_jobs) (no_jobs perm slaves ls)
        | inr w ↦ rw (e, w, assign_jobs) refl
      ]

  -- With indices within the pool, `assignJobs` succeeds. It gives jobs from the front of the queue: for
  -- every number, as many slaves of that number stop being idle as it gives jobs to, and the pool has
  -- as many slaves of that number as before. When it returns, the queue is empty or the slaves at all of
  -- the indices work, and where a slave worked before, one still does.
  pub assign_jobs-Hands :
      (known perm : List ℕ) (slaves : List Managed) (jobs : List (Job F))
      → All (λ i. i < length slaves) perm
      → All (Busy slaves) known
      → Hands known perm slaves jobs
  unfolding assign_jobs
  assign_jobs-Hands known perm slaves [] l b =
      ([], slaves, [], no_jobs perm slaves l, unchanged slaves [], b, inl refl)
  assign_jobs-Hands known [] slaves (job ∷ jobs) l b =
      ([], slaves, job ∷ jobs, refl, unchanged slaves (job ∷ jobs), b, inr tt)
  assign_jobs-Hands known (i ∷ perm) slaves (job ∷ jobs) (l, ls) b =
      let (s, e) = get_elem?-some slaves i l in
      elim (Bool-cases s.working) [
        | inl w ↦
            skip known perm slaves job jobs i s e w
              (assign_jobs-Hands (i ∷ known) perm slaves (job ∷ jobs) ls ((s, e, w), b))
        | inr w ↦
            let x = record s { working = true } in
            hand known perm slaves job jobs i s e w (
              assign_jobs-Hands (i ∷ known) perm (set slaves i x) jobs
                (below_set perm slaves i x ls)
                (Busy-set_here slaves i s x e refl, Busy-set_rest known slaves i x refl b))
      ]

  -- Whatever a call that succeeds returns, it is an outcome of this form.
  pub assign_jobs-Handed :
      (perm : List ℕ) (slaves slaves' : List Managed) (jobs jobs' : List (Job F))
      (res : List (Assignment F))
      → All (λ i. i < length slaves) perm
      → assign_jobs perm slaves jobs ≡ some (res, slaves', jobs')
      → Handed slaves jobs res slaves' jobs'
  assign_jobs-Handed perm slaves slaves' jobs jobs' res l e =
      let (res', left, rest, r, h, b, ends) = assign_jobs-Hands [] perm slaves jobs l tt in
      subst (λ o. Handed slaves jobs o.0 o.1 o.2) (some-eq _ _ (sym r ∙ e)) h
