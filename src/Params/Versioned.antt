-- ===== src/Params/Versioned.antt =====
-- `safeParams` (anyes/params.go): what a version says of the parameters.
use trpo.Prelude.{
  ℕ, ◌+◌, All, none, ◌<◌, ◌≡◌, ◌⊎◌, refl, ap, ◌∙◌, List, [], ◌∷◌, some, Option-cases, inl, inr,
  arith,
}
use trpo.Params.{
  Params, SafeParams, Returned, data_read, data_set, updated, checked, Call, read_data, write_data,
  add_update, read_checksum, safe_data, safe_set_data, safe_update, safe_checksum, call, calls,
}

-- What a call has returned is not an error of `SetData`.
abbrev pub Succeeds : {D : Type 0} → Returned D × ℕ → Type 0
Succeeds (data_read d, v) = Unit
Succeeds (data_set none, v) = Unit
Succeeds (data_set (some e), v) = ⊥
Succeeds (updated, v) = Unit
Succeeds (checked c, v) = Unit

-- The calls that change the parameters.
abbrev pub changes : {D M : Type 0} → List (Call D M) → ℕ
changes [] = 0
changes (read_data ∷ cs) = changes cs
changes (write_data d ∷ cs) = changes cs + 1
changes (add_update m ∷ cs) = changes cs + 1
changes (read_checksum ∷ cs) = changes cs

module _ {W D M : Type 0} (api : Params W D M) where
  -- A call leaves the state, or raises the version.
  abbrev Kept : SafeParams W → SafeParams W → Type 0
  Kept s t = (t ≡ s) ⊎ (s.version < t.version)

  chain : (s t u : SafeParams W) → Kept s t → Kept t u → Kept s u
  chain s t u (inl e) (inl f) = inl (f ∙ e)
  chain s t u (inl e) (inr l) = inr (omega (arith, ap (λ x. x.version) e))
  chain s t u (inr k) (inl f) = inr (omega (arith, ap (λ x. x.version) f))
  chain s t u (inr k) (inr l) = inr (omega arith)

  call-Kept :
      (s : SafeParams W) (c : Call D M) → Succeeds (call api s c).0 → Kept s (call api s c).1
  unfolding call safe_data safe_set_data safe_update safe_checksum
  call-Kept s read_data h = inl refl
  call-Kept s (write_data d) h = elim (Option-cases (api.set_data s.params d).0) [
    | inl good ↦ inr (rw (good, call, safe_set_data) (omega arith))
    | inr (e, bad) ↦ absurd (rw (bad, call, safe_set_data) at h)
  ]
  call-Kept s (add_update m) h = inr (omega arith)
  call-Kept s read_checksum h = inl refl

  calls-Kept :
      (s : SafeParams W) (cs : List (Call D M))
      → All Succeeds (calls api s cs).0
      → Kept s (calls api s cs).1
  unfolding calls
  calls-Kept s [] h = inl refl
  calls-Kept s (c ∷ cs) (h, hs) =
      let s' = (call api s c).1 in chain s s' _ (call-Kept s c h) (calls-Kept s' cs hs)

  call-version :
      (s : SafeParams W) (c : Call D M)
      → Succeeds (call api s c).0
      → (call api s c).1.version ≡ s.version + changes (c ∷ [])
  unfolding call safe_data safe_set_data safe_update safe_checksum
  call-version s read_data h = omega arith
  call-version s (write_data d) h = elim (Option-cases (api.set_data s.params d).0) [
    | inl good ↦ rw (good, call, safe_set_data) (omega arith)
    | inr (e, bad) ↦ absurd (rw (bad, call, safe_set_data) at h)
  ]
  call-version s (add_update m) h = omega arith
  call-version s read_checksum h = omega arith

  changes-cons :
      (c : Call D M) (cs : List (Call D M)) → changes (c ∷ cs) ≡ changes (c ∷ []) + changes cs
  changes-cons read_data cs = omega arith
  changes-cons (write_data d) cs = omega arith
  changes-cons (add_update m) cs = omega arith
  changes-cons read_checksum cs = omega arith

  calls-version :
      (s : SafeParams W) (cs : List (Call D M))
      → All Succeeds (calls api s cs).0
      → (calls api s cs).1.version ≡ s.version + changes cs
  unfolding calls
  calls-version s [] h = omega arith
  calls-version s (c ∷ cs) (h, hs) =
      let s' = (call api s c).1 in
      let step = call-version s c h in
      let rest = calls-version s' cs hs in omega (arith, step, rest, changes-cons c cs)

  -- Take any sequence of calls of the methods of `safeParams` in which no `SetData` returns an error, over any
  -- parameters. The version rises by the number of the calls of `SetData` and `Update`; and the state, version
  -- and parameters, is the same at the end as at the start, or the version is larger. So parameters with the
  -- same version are the same.
  pub calls_same_version :
      (s : SafeParams W) (cs : List (Call D M))
      → All Succeeds (calls api s cs).0
      → ((calls api s cs).1.version ≡ s.version + changes cs)
        × (((calls api s cs).1 ≡ s) ⊎ (s.version < (calls api s cs).1.version))
  calls_same_version s cs h = (calls-version s cs h, calls-Kept s cs h)
