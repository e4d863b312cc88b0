-- ===== src/ParamServer.antt =====
-- anya3c/param_server.go: the parameter server. A goroutine for each parameter receives changes over a
-- channel that holds one, and calls of `Update` and `Sync` have goroutines of their own. The moves of all
-- goroutines come in any order, one event for each; what happens under a lock is one event. The vectors
-- and the transformers of gradients are parameters.
pub mod Moves
pub mod Applied
mod Tests
pub mod Copying
pub mod LocalCopy
pub mod Closing
pub mod Safe
use trpo.Prelude.{
  ℕ, zero, suc, ◌+◌, List, [], ◌∷◌, ◌++◌, map, Bool, true, false, not, ◌&&◌, Option, none, some,
  get_elem?, set, if◌then◌else◌,
}
use trpo.Prelude.Failure.{Error, text, ctx}

-- `change.Scale(x)` and `param.Vector.Add(change)`
pub record VectorApi (F V : Type 0) : Type 0 where
  pub scale : F → V → V
  pub add : V → V → V

-- The goroutine of a parameter: the parameter's vector, the buffer of its channel, the change that has
-- been received and not added yet, the state of its transformer, and whether it has returned.
pub record Updater (V T : Type 0) : Type 0 where
  pub param : V
  pub queue : Option V
  pub change : Option V
  pub trans : Option T
  pub ended : Bool

-- A call that has been let in: the goroutines that are left, those of `Update` with what they send, and
-- those of `Sync` with the vectors of the local agent.
pub data Call (V : Type 0) : Type 0 where
  updating : List (ℕ × V) → Call V
  syncing : List ℕ → List V → Call V

pub record ParamServer (V T : Type 0) : Type 0 where
  pub updaters : List (Updater V T)
  pub calls : List (Call V)
  pub closed : Bool

pub data Event (V : Type 0) : Type 0 where
  begin_update : List V → Event V
  begin_sync : List V → Event V
  send : ℕ → ℕ → Event V
  read : ℕ → ℕ → Event V
  return : ℕ → Event V
  receive : ℕ → Event V
  apply : ℕ → Event V
  close : Event V
  finish : ℕ → Event V

-- What comes of an event: its goroutine waits, the program panics, or it goes on, with the error that a
-- call returned, with what was sent and to which parameter.
pub data Move (V A : Type 0) : Type 0 where
  waits : Move V A
  crashes : Move V A
  goes : Option Error → List (ℕ × V) → A → Move V A

abbrev pub err_closed : Error
err_closed = text "parameter server is closed"

abbrev pub new_updater : {V T : Type 0} → Option T → V → Updater V T
new_updater trans param = record {
  param = param;
  queue = none;
  change = none;
  trans = trans;
  ended = false;
}

-- `newParamServer`, where `trans` is what `trans()` returns
unfoldable pub new_param_server : {V T : Type 0} → Option T → List V → ParamServer V T
new_param_server trans params = record {
  updaters = map (new_updater trans) params;
  calls = [];
  closed = false;
}

abbrev pub enumerate {ℓ} : {A : Type ℓ} → ℕ → List A → List (ℕ × A)
enumerate i [] = []
enumerate i (x ∷ xs) = (i, x) ∷ enumerate (i + 1) xs

abbrev pub indices {ℓ} : {A : Type ℓ} → ℕ → List A → List ℕ
indices i [] = []
indices i (x ∷ xs) = i ∷ indices (i + 1) xs

-- The goroutine `k` of those that are left, and the others.
abbrev pub pick {ℓ} : {A : Type ℓ} → ℕ → List A → Option (A × List A)
pick k [] = none
pick zero (x ∷ xs) = some (x, xs)
pick (suc k) (x ∷ xs) = elim (pick k xs) [ none ↦ none | some (y, ys) ↦ some (y, x ∷ ys) ]

-- `wg.Wait()` of a call, which then returns.
abbrev pub is_done : {V : Type 0} → Call V → Bool
is_done (updating []) = true
is_done (updating (x ∷ xs)) = false
is_done (syncing [] locals) = true
is_done (syncing (x ∷ xs) locals) = false

module _ {V T : Type 0} where
  -- One goroutine of an `Update` sends: `p.Updaters[i] <- g[localParam]`. A send on a closed channel panics.
  unfoldable pub send_change : ParamServer V T → ℕ → ℕ → Move V (ParamServer V T)
  send_change s j k = elim (get_elem? s.calls j) [
    | none ↦ waits
    | some (syncing reads locals) ↦ waits
    | some (updating sends) ↦ elim (pick k sends) [
      | none ↦ waits
      | some ((i, v), rest) ↦ if s.closed then crashes else elim (get_elem? s.updaters i) [
        | none ↦ crashes
        | some u ↦ elim u.queue [
          | some waiting ↦ waits
          | none ↦ goes none ((i, v) ∷ []) (record s {
            updaters = set s.updaters i (record u { queue = some v });
            calls = set s.calls j (updating rest);
          })
        ]
      ]
    ]
  ]

  -- One goroutine of a `Sync` reads: `localParam.Vector.Set(p.Params[i].Vector)`.
  unfoldable pub read_param : ParamServer V T → ℕ → ℕ → Move V (ParamServer V T)
  read_param s j k = elim (get_elem? s.calls j) [
    | none ↦ waits
    | some (updating sends) ↦ waits
    | some (syncing reads locals) ↦ elim (pick k reads) [
      | none ↦ waits
      | some (i, rest) ↦ elim (get_elem? s.updaters i) [
        | none ↦ crashes
        | some u ↦
            goes none [] (record s { calls = set s.calls j (syncing rest (set locals i u.param)) })
      ]
    ]
  ]

  unfoldable pub return_call : ParamServer V T → ℕ → Move V (ParamServer V T)
  return_call s j = elim (pick j s.calls) [
    | none ↦ waits
    | some (c, rest) ↦ if is_done c then goes none [] (record s { calls = rest }) else waits
  ]

  -- `for change := range ch` takes the next change, or ends if the channel is closed and empty.
  abbrev pub receive_change : Bool → Updater V T → Option (Updater V T)
  receive_change closed u = elim u.change [
    | some v ↦ none
    | none ↦ elim u.queue [
      | none ↦ none
      | some v ↦ some (record u { queue = none; change = some v })
    ]
  ]

  abbrev pub end_loop : Bool → Updater V T → Option (Updater V T)
  end_loop closed u = elim u.change [
    | some v ↦ none
    | none ↦ elim u.queue [
      | some v ↦ none
      | none ↦ if closed && not u.ended then some (record u { ended = true }) else none
    ]
  ]

  unfoldable pub update_updater :
      (Bool → Updater V T → Option (Updater V T)) → ParamServer V T → ℕ → Move V (ParamServer V T)
  update_updater f s i = elim (get_elem? s.updaters i) [
    | none ↦ waits
    | some u ↦ elim (f s.closed u) [
      | none ↦ waits
      | some u' ↦ goes none [] (record s { updaters = set s.updaters i u' })
    ]
  ]

  -- `Update` and `Sync` up to `wg.Wait()`. The changes are `g[localParam]` for each parameter of the local
  -- agent; a gradient has them all.
  unfoldable pub update : ParamServer V T → List V → Move V (ParamServer V T)
  update s changes =
      if s.closed
      then goes (some (ctx "update global agent" err_closed)) [] s
      else goes none [] (record s { calls = s.calls ++ updating (enumerate 0 changes) ∷ [] })

  unfoldable pub sync : ParamServer V T → List V → Move V (ParamServer V T)
  sync s locals =
      if s.closed
      then goes (some (ctx "sync local agent" err_closed)) [] s
      else goes none [] (record s { calls = s.calls ++ syncing (indices 0 locals) locals ∷ [] })

  -- `Close` up to `UpdatersWg.Wait()`: it has the lock for writing, so no call is under way. It returns
  -- when all updaters have ended, at once if the server was closed.
  unfoldable pub close_server : ParamServer V T → Move V (ParamServer V T)
  close_server s = elim s.calls [ [] ↦ goes none [] (record s { closed = true }) | c ∷ cs ↦ waits ]

module _ {F V T : Type 0} (api : VectorApi F V) (transform : T → V → V × T) (step_size : F) where
  open api use {scale, add}

  -- The body of the loop of `vanillaUpdater`, and of `transformerUpdater`.
  abbrev pub vanilla_update : V → V → V
  vanilla_update param change = add param (scale step_size change)

  abbrev pub transformer_update : V → T → V → V × Option T
  transformer_update param trans change =
      let (vec, trans') = transform trans change in (add param (scale step_size vec), some trans')

  abbrev pub updated : V × Option T → V → V × Option T
  updated (param, none) change = (vanilla_update param change, none)
  updated (param, some trans) change = transformer_update param trans change

  -- `change` is added to the parameter of an updater.
  abbrev pub applied : Updater V T → V → Updater V T
  applied u change =
      let (param, trans) = updated (u.param, u.trans) change in
      record u { param = param; trans = trans; change = none }

  abbrev pub apply_change : Bool → Updater V T → Option (Updater V T)
  apply_change closed u = elim u.change [ none ↦ none | some v ↦ some (applied u v) ]

  unfoldable pub exec : Event V → ParamServer V T → Move V (ParamServer V T)
  unfolding send_change read_param return_call update_updater update sync close_server
  exec (begin_update changes) s = update s changes
  exec (begin_sync locals) s = sync s locals
  exec (send j k) s = send_change s j k
  exec (read j k) s = read_param s j k
  exec (return j) s = return_call s j
  exec (receive i) s = update_updater receive_change s i
  exec (apply i) s = update_updater apply_change s i
  exec close s = close_server s
  exec (finish i) s = update_updater end_loop s i

  -- A sequence of events, with the log of all that was sent.
  unfoldable pub exec_all :
      List (Event V) → List (ℕ × V) → ParamServer V T → Move V (ParamServer V T)
  unfolding exec
  exec_all [] log s = goes none log s
  exec_all (e ∷ es) log s = elim (exec e s) [
    | waits ↦ waits
    | crashes ↦ crashes
    | goes error more t ↦ exec_all es (log ++ more) t
  ]
