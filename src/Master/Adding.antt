-- ===== src/Master/Adding.antt =====
-- `AddSlave`, `Slaves`, `callSlaveError` and `getSlaveAdded` (anyes/master.go). The lock of updates keeps the
-- parameters as they are during `AddSlave`.
use trpo.Prelude.{
  ℕ, suc, ◌≡◌, refl, ap, sym, subst, ◌∙◌, List, [], ◌∷◌, ◌++◌, map, Bool, true, false, Option, none,
  some, length,
}
use trpo.Prelude.Failure.{Error, ctx, Result, ok, err, panic}
use trpo.Noise.{Noise}
use trpo.Params.{Params, SafeParams, safe_data}
use trpo.Master.{Managed}
use trpo.Master.Assigning.{some-eq}
use trpo.Master.Rounds.{Round, Step, add_slave}

-- The pool and the channel `slaveAdded`, which is `nil` or tells whether it holds a signal.
pub record Adding : Type 0 where
  pub pool : List Managed
  pub fresh : ℕ
  pub slave_added : Option Bool

-- A send that is dropped if the channel is `nil` or full.
abbrev pub signal : Option Bool → Option Bool
signal none = none
signal (some b) = some true

-- `getSlaveAdded`
abbrev pub get_slave_added : Adding → Adding
get_slave_added p = record p {
  slave_added = elim p.slave_added [ none ↦ some false | some b ↦ some b ];
}

-- `Slaves`
abbrev pub slaves : Adding → List ℕ
slaves p = map (λ m. m.id) p.pool

-- `callSlaveError`
abbrev pub call_slave_error : Option (ℕ → Error → Option Error) → ℕ → Error → Option Error
call_slave_error none k e = some e
call_slave_error (some slave_error) k e = slave_error k e

-- The pool with a new slave of a version.
abbrev with_new : ℕ → Adding → Adding
with_new version p = record {
  pool = p.pool ++ (record { id = p.fresh; version = version; working = false } ∷ []);
  fresh = suc p.fresh;
  slave_added = signal p.slave_added;
}

-- What a call comes to, by its error.
abbrev Comes : ℕ → Adding → Option Error → Adding → Type 0
Comes version p (some e) q = q ≡ p
Comes version p none q = q ≡ with_new version p

same_outcome :
    (version : ℕ) (p : Adding) (a b : Option Error × Adding)
    → some a ≡ some b
    → Comes version p a.0 a.1
    → Comes version p b.0 b.1
same_outcome version p a b h c = subst (λ o. Comes version p o.0 o.1) (some-eq a b h) c

no_outcome : (a : Option Error × Adding) → none ≡ some a → ⊥
no_outcome a x = cc

module _ {F W D M : Type 0} (api : Params W D M) where
  -- `AddSlave` of a slave whose `Init` is given; `none` is a panic.
  unfoldable pub add_slave_to :
      SafeParams W → Noise F → (D → ℕ → ℕ → Option Error) → Adding → Option (Option Error × Adding)
  add_slave_to params noise init p =
      let (serialized, version) = safe_data api params in
      elim serialized [
        | panic ↦ none
        | err e ↦ some (some (ctx "add slave" e), p)
        | ok d ↦ elim (init d noise.seed (length noise.data_of)) [
          | some e ↦ some (some (ctx "add slave" e), p)
          | none ↦ some (
            none,
            record {
              pool = p.pool ++ (record { id = p.fresh; version = version; working = false } ∷ []);
              fresh = suc p.fresh;
              slave_added = signal p.slave_added;
            },
          )
        ]
      ]

  -- By the answers of the parameters and of the slave.
  unreadable :
      (params : SafeParams W) (noise : Noise F) (init : D → ℕ → ℕ → Option Error) (p : Adding)
      → api.data_of params.params ≡ panic
      → add_slave_to params noise init p ≡ none
  unfolding add_slave_to safe_data
  unreadable params noise init p h = rw h refl

  refused :
      (params : SafeParams W) (noise : Noise F) (init : D → ℕ → ℕ → Option Error) (p : Adding)
      (e : Error)
      → api.data_of params.params ≡ err e
      → add_slave_to params noise init p ≡ some (some (ctx "add slave" e), p)
  unfolding add_slave_to safe_data
  refused params noise init p e h = rw h refl

  not_initialized :
      (params : SafeParams W) (noise : Noise F) (init : D → ℕ → ℕ → Option Error) (p : Adding)
      (d : D) (e : Error)
      → api.data_of params.params ≡ ok d
      → init d noise.seed (length noise.data_of) ≡ some e
      → add_slave_to params noise init p ≡ some (some (ctx "add slave" e), p)
  unfolding add_slave_to safe_data
  not_initialized params noise init p d e h i = rw (h, i) refl

  initialized :
      (params : SafeParams W) (noise : Noise F) (init : D → ℕ → ℕ → Option Error) (p : Adding)
      (d : D)
      → api.data_of params.params ≡ ok d
      → init d noise.seed (length noise.data_of) ≡ none
      → add_slave_to params noise init p ≡ some (none, with_new params.version p)
  unfolding add_slave_to safe_data
  initialized params noise init p d h i = rw (h, i) refl

  by_init :
      (params : SafeParams W) (noise : Noise F) (init : D → ℕ → ℕ → Option Error) (p q : Adding)
      (e : Option Error) (d : D) (i : Option Error)
      → api.data_of params.params ≡ ok d
      → init d noise.seed (length noise.data_of) ≡ i
      → add_slave_to params noise init p ≡ some (e, q)
      → Comes params.version p e q
  by_init params noise init p q e d none g k h =
      same_outcome params.version p (none, with_new params.version p) (e, q)
        (sym (initialized params noise init p d g k) ∙ h) refl
  by_init params noise init p q e d (some x) g k h =
      same_outcome params.version p (some (ctx "add slave" x), p) (e, q)
        (sym (not_initialized params noise init p d x g k) ∙ h) refl

  by_data :
      (params : SafeParams W) (noise : Noise F) (init : D → ℕ → ℕ → Option Error) (p q : Adding)
      (e : Option Error) (r : Result D)
      → api.data_of params.params ≡ r
      → add_slave_to params noise init p ≡ some (e, q)
      → Comes params.version p e q
  by_data params noise init p q e panic g h =
      absurd (no_outcome (e, q) (sym (unreadable params noise init p g) ∙ h))
  by_data params noise init p q e (err x) g h =
      same_outcome params.version p (some (ctx "add slave" x), p) (e, q)
        (sym (refused params noise init p x g) ∙ h) refl
  by_data params noise init p q e (ok d) g h =
      by_init params noise init p q e d (init d noise.seed (length noise.data_of)) g refl h

  -- A call of `AddSlave` that succeeds while `Rollouts` runs, whatever the state of `Rollouts`, is its move
  -- `add_slave`: an idle slave with a new number joins the pool, and a signal is in the channel that
  -- `Rollouts` reads. The slave has the version whose data it was initialized with.
  add_slave_to-Step :
      {G : Type 0} (wanted : ℕ) (s : Round G) (params : SafeParams W) (noise : Noise F)
      (init : D → ℕ → ℕ → Option Error) (q : Adding)
      → add_slave_to params noise init
          (record { pool = s.pool; fresh = s.fresh; slave_added = some s.added })
        ≡ some (none, q)
      → Step wanted s (record s { pool = q.pool; fresh = q.fresh; added = true })
        × (q.slave_added ≡ some true)
        × (q.pool
            ≡ s.pool ++ (record { id = s.fresh; version = params.version; working = false } ∷ []))
  add_slave_to-Step wanted s params noise init q h =
      let p : Adding = record { pool = s.pool; fresh = s.fresh; slave_added = some s.added } in
      let e : q ≡ with_new params.version p =
        by_data params noise init p q none (api.data_of params.params) refl h in
      (
        subst (λ r. Step wanted s (record s { pool = r.pool; fresh = r.fresh; added = true }))
            (sym e) (add_slave params.version),
        ap (λ r. r.slave_added) e,
        ap (λ r. r.pool) e,
      )
