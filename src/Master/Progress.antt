-- ===== src/Master/Progress.antt =====
-- `Rollouts` (anyes/master.go): what goes on while it is at its `select`.
use trpo.Prelude.{
  ℕ, zero, suc, ◌+◌, ◌≤◌, ◌<◌, ◌≡◌, ◌⊎◌, refl, ap, sym, subst, ◌∙◌, List, [], ◌∷◌, ◌++◌, Bool,
  false, Option, none, some, arith, length, length-append, All, ◌==◌, if◌then◌else◌, Bool-cases,
  inl, inr, ==→eq,
}
use trpo.Prelude.Failure.{Error}
use trpo.Master.{Managed, Job, Assignment, assign_jobs}
use trpo.Master.Pool.{total, is_number}
use trpo.Master.Assigning.{Busy, assign_jobs-Hands, some-eq}
use trpo.Master.Rounds.{
  Phase, looping, selecting, draining, finished, stopped, Round, report, Covers, Step, Steps, here,
  then_step, assign, finish, take_error, take_handled, take_added, take_result, drain, stop,
  succeed, send, fail, remove, give_up, handle, add_slave,
}

-- 1 for a slave that is not working.
abbrev pub unused : Managed → ℕ
unused m = if m.working then 0 else 1

All-at : (A : ℕ → Type 0) (i : ℕ) (js : List ℕ) → All A js → 1 ≤ total (is_number i) js → A i
All-at A i [] a h = absurd (omega (arith, h))
All-at A i (j ∷ js) (a, as') h = elim (Bool-cases (j == i)) [
  | inl same ↦ subst A (==→eq j i same) a
  | inr other ↦ All-at A i js as' (ground (arith, h))
]

Covers-at : (n i : ℕ) (perm : List ℕ) → Covers n perm → i < n → 1 ≤ total (is_number i) perm
Covers-at zero i perm c l = absurd (omega arith)
Covers-at (suc n) i perm (h, c) l = elim (Bool-cases (n == i)) [
  | inl same ↦ subst (λ k. 1 ≤ total (is_number k) perm) (==→eq n i same) h
  | inr other ↦ Covers-at n i perm c (apart n i other l)
]
  where
    apart : (n i : ℕ) → (n == i) ≡ false → i < suc n → i < n
    apart n i h l = ground arith

Busy-unused : (m : Managed) (slaves : List Managed) → Busy (m ∷ slaves) 0 → unused m ≡ 0
Busy-unused m slaves (s, e, w) = let same : m ≡ s = cc in ap unused same ∙ rw w refl

all-Busy :
    (slaves : List Managed)
    → ((i : ℕ) → i < length slaves → Busy slaves i)
    → total unused slaves ≡ 0
all-Busy [] h = refl
all-Busy (m ∷ slaves) h = omega (
  arith,
  Busy-unused m slaves (h 0 (omega arith)),
  all-Busy slaves (λ i l. h (suc i) (omega arith)),
)

one_more {ℓ} : {A : Type ℓ} (xs : List A) (x : A) → 1 ≤ length (xs ++ (x ∷ []))
one_more xs x = omega (arith, length-append xs (x ∷ []))

flag : Bool → ℕ
flag b = if b then 1 else 0

present_error : Option Error → ℕ
present_error none = 0
present_error (some e) = 1

report-present : (e : Error) (held : Option Error) → present_error (report e held) ≡ 1
unfolding present_error
report-present e none = refl
report-present e (some x) = refl

module _ {F : Type 0} where
  -- What goroutines and channels hold that lets the call go on.
  unfoldable pub signals : Round F → ℕ
  unfolding flag present_error
  signals s =
      length s.running
      + length s.returned
      + length s.failing
      + length s.erring
      + length s.results
      + flag s.handled
      + flag s.added
      + present_error s.error

  -- What is known at the `select`.
  unfoldable pub ReadyAt : ℕ → Round F → Phase → Type 0
  ReadyAt wanted s looping = Unit
  ReadyAt wanted s selecting =
      (length s.rollouts < wanted)
      × ((1 ≤ signals s) ⊎ ((s.queue ≡ []) ⊎ (total unused s.pool ≡ 0)))
  ReadyAt wanted s (draining e) = Unit
  ReadyAt wanted s (finished e) = Unit
  ReadyAt wanted s (stopped e) = Unit

  signalled :
      (wanted : ℕ) (s t : Round F) (p : Phase)
      → length s.rollouts ≡ length t.rollouts
      → 1 ≤ signals t
      → ReadyAt wanted s p
      → ReadyAt wanted t p
  unfolding ReadyAt
  signalled wanted s t looping e l h = tt
  signalled wanted s t selecting e l (few, h) = (omega arith, inl l)
  signalled wanted s t (draining x) e l h = tt
  signalled wanted s t (finished x) e l h = tt
  signalled wanted s t (stopped x) e l h = tt

  -- After `assignJobs` over all indices the queue is empty, or no slave is unused.
  assigned :
      (perm : List ℕ) (pool : List Managed) (queue : List (Job F)) (res : List (Assignment F))
      (pool' : List Managed) (queue' : List (Job F))
      → All (λ i. i < length pool) perm
      → Covers (length pool) perm
      → assign_jobs perm pool queue ≡ some (res, pool', queue')
      → (queue' ≡ []) ⊎ (total unused pool' ≡ 0)
  assigned perm pool queue res pool' queue' b c e =
      let (res0, left, rest, r, h, known, ends) = assign_jobs-Hands [] perm pool queue b tt in
      subst (λ o. (o.2 ≡ []) ⊎ (total unused o.1 ≡ 0)) (some-eq _ _ (sym r ∙ e))
        (elim ends [
          | inl none_left ↦ inl none_left
          | inr all ↦ inr (
              all-Busy left (λ i l.
                All-at (Busy left) i perm all
                  (Covers-at (length pool) i perm c (omega (arith, l, h.length_kept)))))
        ])

  ReadyAt-Step :
      (wanted : ℕ) (s t : Round F)
      → Step wanted s t
      → ReadyAt wanted s s.phase
      → ReadyAt wanted t t.phase
  unfolding ReadyAt signals
  ReadyAt-Step wanted s t (assign perm res pool queue p l b c e) h =
      (l, inr (assigned perm s.pool s.queue res pool queue b c e))
  ReadyAt-Step wanted s t (finish p l) h = tt
  ReadyAt-Step wanted s t (take_error x p e) h = tt
  ReadyAt-Step wanted s t (take_handled p e) h = tt
  ReadyAt-Step wanted s t (take_added p e) h = tt
  ReadyAt-Step wanted s t (take_result r rest p e) h = tt
  ReadyAt-Step wanted s t (drain e0 r rest p e) h = subst (ReadyAt wanted t) (sym p) tt
  ReadyAt-Step wanted s t (stop x p a b c d e) h = tt
  ReadyAt-Step wanted s t (succeed before after a r e j) h =
      signalled wanted s t s.phase refl (omega arith) h
  ReadyAt-Step wanted s t (send before after r e) h =
      signalled wanted s t s.phase refl (omega (arith, one_more s.results r)) h
  ReadyAt-Step wanted s t (fail before after a e) h =
      signalled wanted s t s.phase refl (omega arith) h
  ReadyAt-Step wanted s t (remove before after k e) h =
      signalled wanted s t s.phase refl (omega arith) h
  ReadyAt-Step wanted s t (give_up before after k x e) h =
      signalled wanted s t s.phase refl (omega (arith, report-present x s.error)) h
  ReadyAt-Step wanted s t (handle before after k e) h =
      signalled wanted s t s.phase refl (omega arith) h
  ReadyAt-Step wanted s t (add_slave version) h = signalled wanted s t s.phase refl (omega arith) h

  pub ReadyAt-Steps :
      (wanted : ℕ) (s t : Round F)
      → Steps wanted s t
      → ReadyAt wanted s s.phase
      → ReadyAt wanted t t.phase
  ReadyAt-Steps wanted s t here h = h
  ReadyAt-Steps wanted s t (then_step {t = m} p q) h =
      ReadyAt-Step wanted m t q (ReadyAt-Steps wanted s m p h)
