-- ===== src/Params.antt =====
-- anyes/params.go: `safeParams`, parameters with a version, whose lock makes each method one move. The
-- parameters themselves are behind an interface.
pub mod Versioned
pub mod Anynet
pub mod Restoring
mod Tests
use trpo.Prelude.{ℕ, zero, suc, ◌+◌, List, [], ◌∷◌, Option, none, some}
use trpo.Prelude.Failure.{Error, Result, ok, err, panic}

-- The methods of `Params` over values `W`, serialized forms `D` and mutations `M`; `set_data` has an error,
-- if there is one, and the new value.
pub record Params (W D M : Type 0) : Type 0 where
  pub data_of : W → Result D
  pub set_data : W → D → Option Error × W
  pub update : W → M → W
  pub checksum : W → Result ℕ

pub record SafeParams (W : Type 0) : Type 0 where
  pub version : ℕ
  pub params : W

-- What a method of `safeParams` returns beside the version.
pub data Returned (D : Type 0) : Type 0 where
  data_read : Result D → Returned D
  data_set : Option Error → Returned D
  updated : Returned D
  checked : Result ℕ → Returned D

-- A call of one of the methods.
pub data Call (D M : Type 0) : Type 0 where
  read_data : Call D M
  write_data : D → Call D M
  add_update : M → Call D M
  read_checksum : Call D M

-- `MakeSafe`
abbrev pub make_safe : {W : Type 0} → W → SafeParams W
make_safe w = record { version = 0; params = w }

module _ {W D M : Type 0} (api : Params W D M) where
  unfoldable pub safe_data : SafeParams W → Result D × ℕ
  safe_data s = (api.data_of s.params, s.version)

  unfoldable pub safe_set_data : SafeParams W → D → (ℕ × Option Error) × SafeParams W
  safe_set_data s d =
      let (problem, w) = api.set_data s.params d in
      elim problem [
        | none ↦ ((s.version + 1, none), record { version = s.version + 1; params = w })
        | some e ↦ ((s.version, some e), record { version = s.version; params = w })
      ]

  unfoldable pub safe_update : SafeParams W → M → ℕ × SafeParams W
  safe_update s m =
      (s.version + 1, record { version = s.version + 1; params = api.update s.params m })

  unfoldable pub safe_checksum : SafeParams W → (Result ℕ × ℕ)
  safe_checksum s = (api.checksum s.params, s.version)

  -- One call: what it returns, the version that it returns, and the new state.
  unfoldable pub call : SafeParams W → Call D M → (Returned D × ℕ) × SafeParams W
  unfolding safe_data safe_set_data safe_update safe_checksum
  call s read_data = let (d, v) = safe_data s in ((data_read d, v), s)
  call s (write_data d) = let ((v, e), s') = safe_set_data s d in ((data_set e, v), s')
  call s (add_update m) = let (v, s') = safe_update s m in ((updated, v), s')
  call s read_checksum = let (c, v) = safe_checksum s in ((checked c, v), s)

  unfoldable pub calls : SafeParams W → List (Call D M) → List (Returned D × ℕ) × SafeParams W
  unfolding call
  calls s [] = ([], s)
  calls s (c ∷ cs) = let (r, s') = call s c in let (rs, t) = calls s' cs in (r ∷ rs, t)
