-- ===== src/ParamServer/Closing.antt =====
-- anya3c/param_server.go: `Close`, which waits for the updaters.
use trpo.Prelude.{
  ℕ, ◌≡◌, inl, inr, refl, ap, ap₂, sym, ◌∙◌, subst, List, [], ◌∷◌, append-nil, Bool, true, Option,
  none, some, get_elem?, All, arith, foldl, Option-cases,
}
use trpo.Prelude.Failure.{Error}
use trpo.ParamServer.{
  VectorApi, Updater, ParamServer, Event, begin_update, begin_sync, send, read, return, receive,
  apply, close, finish, Move, waits, crashes, goes, new_param_server, updated, send_change,
  read_param, return_call, receive_change, apply_change, end_loop, update_updater, update, sync,
  close_server, exec, exec_all,
}
use trpo.ParamServer.Moves.{After, All-get_elem?}
use trpo.ParamServer.Applied.{sent, Served, exec_all-Served}

-- Nothing is left to an updater that has returned.
abbrev pub IsEmpty : {V T : Type 0} → Updater V T → Type 0
IsEmpty u = (u.ended ≡ true) × (u.queue ≡ none) × (u.change ≡ none)

-- What `Close` has established when it returns.
pub record Closed {V T : Type 0} (s : ParamServer V T) : Type 0 where
  pub shut : s.closed ≡ true
  pub no_calls : s.calls ≡ []
  pub all_ended : All IsEmpty s.updaters

abbrev Same : {V T : Type 0} → ParamServer V T → Move V (ParamServer V T) → Type 0
Same s m = After (Unit {0}) m (λ more t. (more ≡ []) × (t ≡ s))

module _ {V T : Type 0} (s : ParamServer V T) (c : Closed s) where
  update_updater-Same :
      (f : Bool → Updater V T → Option (Updater V T)) (i : ℕ)
      → ((u : Updater V T) → IsEmpty u → f s.closed u ≡ none)
      → Same s (update_updater f s i)
  unfolding update_updater
  update_updater-Same f i nothing = elim (Option-cases (get_elem? s.updaters i)) [
    | inl missing ↦ rw (missing, update_updater) tt
    | inr (u, there) ↦
        rw
          (
            there,
            nothing u (All-get_elem? IsEmpty s.updaters i u there c.all_ended),
            update_updater,
          )
          tt
  ]

  receive-none : (u : Updater V T) → IsEmpty u → receive_change s.closed u ≡ none
  receive-none u (ended, queue, change) = ground (arith, queue, change)

  end-none : (u : Updater V T) → IsEmpty u → end_loop s.closed u ≡ none
  end-none u (ended, queue, change) = ground (arith, ended, queue, change)

  no_call : (j : ℕ) → get_elem? s.calls j ≡ none
  no_call j = rw c.no_calls refl

module _ {F V T : Type 0} (api : VectorApi F V) (transform : T → V → V × T) (step_size : F) where
  exec-Same :
      (e : Event V) (s : ParamServer V T) → Closed s → Same s (exec api transform step_size e s)
  unfolding exec update sync close_server send_change read_param return_call
  exec-Same (begin_update changes) s c = ground (arith, c.shut)
  exec-Same (begin_sync locals) s c = ground (arith, c.shut)
  exec-Same (send j k) s c = rw (no_call s c j, send_change) tt
  exec-Same (read j k) s c = rw (no_call s c j, read_param) tt
  exec-Same (return j) s c = rw (c.no_calls, return_call) tt
  exec-Same (receive i) s c = update_updater-Same s c receive_change i (receive-none s c)
  exec-Same (apply i) s c =
      update_updater-Same s c (apply_change api transform step_size) i
        (λ u (ended, queue, change). ground (arith, change))
  exec-Same close s c =
      rw (c.no_calls, close_server)
        (refl, ap₂ (λ cs b. record s { calls = cs; closed = b }) c.no_calls (sym c.shut))
  exec-Same (finish i) s c = update_updater-Same s c end_loop i (end-none s c)

  exec_all-Same :
      (es : List (Event V)) (log : List (ℕ × V)) (s : ParamServer V T)
      → Closed s
      → After
          (Unit {0})
          (exec_all api transform step_size es log s)
          (λ more t. (more ≡ log) × (t ≡ s))
  unfolding exec_all
  exec_all-Same [] log s c = (refl, refl)
  exec_all-Same (e ∷ es) log s c =
      go (exec api transform step_size e s) refl (exec-Same e s c) (exec_all-Same es log s c)
    where
      go :
          (m : Move V (ParamServer V T))
          → exec api transform step_size e s ≡ m
          → Same s m
          → After
              (Unit {0})
              (exec_all api transform step_size es log s)
              (λ more t. (more ≡ log) × (t ≡ s))
          → After
              (Unit {0})
              (exec_all api transform step_size (e ∷ es) log s)
              (λ more t. (more ≡ log) × (t ≡ s))
      go waits eq h rest = rw (eq, exec_all) tt
      go crashes eq h rest = rw (eq, exec_all) tt
      go (goes error more t) eq (nothing, same) rest =
          rw (eq, exec_all, nothing, same, append-nil) rest

  -- Once `Close` has returned, whatever calls and goroutines do: nothing is sent and the server stays as it
  -- is, its parameters included.
  exec_all-Closed :
      (es : List (Event V)) (log more : List (ℕ × V)) (error : Option Error) (s t : ParamServer V T)
      → Closed s
      → exec_all api transform step_size es log s ≡ goes error more t
      → (more ≡ log) × (t ≡ s)
  exec_all-Closed es log more error s t c run =
      subst (λ m. After (Unit {0}) m (λ more t. (more ≡ log) × (t ≡ s))) run
        (exec_all-Same es log s c)

  Served-IsEmpty :
      (start : V × Option T) (log : List V) (u : Updater V T)
      → IsEmpty u
      → Served api transform step_size start log u
      → (u.param, u.trans) ≡ foldl (updated api transform step_size) start log
  Served-IsEmpty start log u (ended, queue, change) h =
      h.value ∙ ap (foldl (updated api transform step_size) start) (sym all_added)
    where
      all_added : log ≡ h.added
      all_added = h.in_order ∙ rw (change, queue) (append-nil h.added)

  -- When `Close` has returned, every parameter of the server is what it was at first with all changes added
  -- to it that were ever sent to its goroutine, in their order and each once, through the transformer if
  -- there is one.
  pub exec_all_complete :
      (trans : Option T) (params : List V) (i : ℕ) (param : V) (es : List (Event V))
      (error : Option Error) (log : List (ℕ × V)) (s : ParamServer V T)
      → get_elem? params i ≡ some param
      → exec_all api transform step_size es [] (new_param_server trans params) ≡ goes error log s
      → Closed s
      → (u : Updater V T) × (get_elem? s.updaters i ≡ some u)
        × ((u.param, u.trans) ≡ foldl (updated api transform step_size) (param, trans) (sent i log))
  exec_all_complete trans params i param es error log s e run c =
      let (u, there, h) =
        exec_all-Served api transform step_size trans params i param es error log s e run in
      (
        u,
        there,
        Served-IsEmpty (param, trans) (sent i log) u
            (All-get_elem? IsEmpty s.updaters i u there c.all_ended) h,
      )
