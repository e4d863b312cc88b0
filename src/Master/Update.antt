-- ===== src/Master/Update.antt =====
-- `Update` (anyes/master.go): the new version and checksum against those of the slaves. The parameters
-- and what slaves answer are parameters; the goroutines end in any order, which is given, and each ends
-- in one move, since they share the pool and the channel of errors only.
use trpo.Prelude.{
  ℕ, suc, List, [], ◌∷◌, ◌++◌, Bool, false, Option, none, some, ◌==◌, ltb, if◌then◌else◌,
}
use trpo.Prelude.Failure.{Error, text, ctx, Result, ok, panic, ◌>>=◌}
use trpo.Master.{Managed, remove_slave}
use trpo.Master.Rounds.{report}

-- The outcome of `m.Params.Update` and `m.Params.Checksum` in the goroutine of the local update.
pub record Local : Type 0 where
  pub version : ℕ
  pub checksum : ℕ
  pub error : Option Error

-- What `Update` of a slave returns; a panic of a slave is the end of the program, and not modelled.
pub data Answer : Type 0 where
  sum : ℕ → Answer
  failure : Error → Answer

-- A goroutine that ends: that of the local update, or that of a slave.
pub data Ending : Type 0 where
  local_update : Ending
  slave_update : ℕ → Ending

pub record Updating : Type 0 where
  pub pool : List Managed
  pub fresh : ℕ
  pub error : Option Error

-- What `SlaveError` does with an error of a slave: the error it returns, and whether it adds the slave
-- again, which gives it a new number and the new version.
pub record Verdict : Type 0 where
  pub error : Option Error
  pub readd : Bool

abbrev pub incorrect_checksum : Error
incorrect_checksum = text "incorrect checksum"

-- The slaves that take part; a slave of an older version is a panic.
unfoldable pub chosen : ℕ → List Managed → Result (List ℕ)
chosen old [] = ok []
chosen old (m ∷ ms) =
    let rest = chosen old ms in
    if ltb old m.version
    then rest
    else if ltb m.version old
    then panic
    else (rest >>= λ ks. ok (m.id ∷ ks))

-- `slave.Version = newVersion`
abbrev pub set_version : ℕ → ℕ → List Managed → List Managed
set_version k v [] = []
set_version k v (m ∷ ms) = (if m.id == k then record m { version = v } else m) ∷ set_version k v ms

abbrev pub report_if : Option Error → Option Error → Option Error
report_if none held = held
report_if (some e) held = report e held

-- `defer essentials.AddCtxTo("update", &err)`
abbrev pub ctx_if : Option Error → Option Error
ctx_if none = none
ctx_if (some e) = some (ctx "update" e)

module _ (answer : ℕ → Answer) (slave_error : ℕ → Error → Verdict) (local : Local) where
  -- `removeSlave` and `callSlaveError` of a slave that failed.
  unfoldable pub fail_slave : Updating → ℕ → Error → Updating
  fail_slave u k e =
      let verdict = slave_error k e in
      let left = remove_slave k u.pool in
      let new : Managed = record { id = u.fresh; version = local.version; working = false } in
      record {
        pool = if verdict.readd then left ++ (new ∷ []) else left;
        fresh = if verdict.readd then suc u.fresh else u.fresh;
        error = report_if verdict.error u.error;
      }

  -- The goroutine of a slave.
  unfoldable pub end_slave : Updating → ℕ → Updating
  unfolding fail_slave
  end_slave u k = elim (answer k) [
    | sum c ↦
        if c == local.checksum
        then record u { pool = set_version k local.version u.pool }
        else fail_slave u k incorrect_checksum
    | failure e ↦ fail_slave u k e
  ]

  unfoldable pub end_all : Updating → List Ending → Updating
  unfolding end_slave
  end_all u [] = u
  end_all u (local_update ∷ es) = end_all (record u { error = report_if local.error u.error }) es
  end_all u (slave_update k ∷ es) = end_all (end_slave u k) es

  -- The error that the call returns, and the pool that it leaves.
  unfoldable pub master_update :
      ℕ → List Ending → List Managed → ℕ → Result (Option Error × List Managed)
  unfolding end_all chosen
  master_update old order pool fresh = chosen old pool >>= λ ks.
      (let u = end_all (record { pool = pool; fresh = fresh; error = none }) order in
        ok (ctx_if u.error, u.pool))
