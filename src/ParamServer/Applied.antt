-- ===== src/ParamServer/Applied.antt =====
-- anya3c/param_server.go: what becomes of the changes that are sent to the goroutine of a parameter.
use trpo.Prelude.{
  ℕ, zero, suc, ◌≡◌, refl, ap, sym, ◌∙◌, subst, List, [], ◌∷◌, ◌++◌, append-nil, append_assoc,
  foldl, Bool, true, Option, none, some, get_elem?, ◌==◌, ==→eq, if◌then◌else◌, arith, Bool-cases,
  Option-cases, inl, inr, not, ◌&&◌, map,
}
use trpo.Prelude.Failure.{Error}
use trpo.ParamServer.{
  VectorApi, Updater, Call, updating, syncing, ParamServer, Event, begin_update, begin_sync, send,
  read, return, receive, apply, close, finish, Move, waits, crashes, goes, new_updater,
  new_param_server, pick, updated, applied, send_change, read_param, return_call, receive_change,
  apply_change, end_loop, update_updater, update, sync, close_server, exec, exec_all,
}
use trpo.ParamServer.Moves.{some_same, After, get_elem?-set_same, get_elem?-set_other}

-- The changes that a log has for the parameter `i`.
unfoldable pub sent : {V : Type 0} → ℕ → List (ℕ × V) → List V
sent i [] = []
sent i ((j, v) ∷ log) = let rest = sent i log in if j == i then v ∷ rest else rest

sent-append :
    {V : Type 0} (i : ℕ) (log more : List (ℕ × V))
    → sent i (log ++ more) ≡ sent i log ++ sent i more
unfolding sent
sent-append i [] more = refl
sent-append i ((j, v) ∷ log) more = ground (arith, sent-append i log more)

-- The changes that an updater has received, and that wait in its channel.
abbrev pub waiting : {V T : Type 0} → Updater V T → List V
waiting u = elim u.change [
  | none ↦ elim u.queue [ none ↦ [] | some w ↦ w ∷ [] ]
  | some v ↦ v ∷ elim u.queue [ none ↦ [] | some w ↦ w ∷ [] ]
]

get_elem?-map :
    {A B : Type 0} (f : A → B) (xs : List A) (i : ℕ) (x : A)
    → get_elem? xs i ≡ some x
    → get_elem? (map f xs) i ≡ some (f x)
get_elem?-map f [] i x e = cc
get_elem?-map f (y ∷ xs) zero x e = cc
get_elem?-map f (y ∷ xs) (suc i) x e = get_elem?-map f xs i x e

foldl_snoc :
    {A S : Type 0} (f : S → A → S) (s : S) (xs : List A) (a : A)
    → foldl f s (xs ++ a ∷ []) ≡ f (foldl f s xs) a
foldl_snoc f s [] a = refl
foldl_snoc f s (x ∷ xs) a = foldl_snoc f (f s x) xs a

module _ {F V T : Type 0} (api : VectorApi F V) (transform : T → V → V × T) (step_size : F) where
  -- Of the changes that were sent to an updater which began with `start`, in their order, the first ones
  -- have been added, each once, and the rest waits.
  pub record Served (start : V × Option T) (log : List V) (u : Updater V T) : Type 0 where
    pub added : List V
    pub in_order : log ≡ added ++ waiting u
    pub value : (u.param, u.trans) ≡ foldl (updated api transform step_size) start added

  abbrev pub Serves : V × Option T → ℕ → List (ℕ × V) → ParamServer V T → Type 0
  Serves start i log s =
      (u : Updater V T) × (get_elem? s.updaters i ≡ some u) × Served start (sent i log) u

  -- What an updater does by itself keeps what it was sent.
  receive-Served :
      (start : V × Option T) (log : List V) (closed : Bool) (u u' : Updater V T)
      → receive_change closed u ≡ some u'
      → Served start log u
      → Served start log u'
  receive-Served start log closed u u' e h = elim (Option-cases u.change) [
    | inr (v, busy) ↦ cc
    | inl free ↦ elim (Option-cases u.queue) [
      | inl nothing ↦ cc
      | inr (v, next) ↦
          let moved : Updater V T = record u { queue = none; change = some v } in
          subst (Served start log) (some_same moved u' (rw (← e, free, next) refl)) (record {
            added = h.added;
            in_order = rw h.in_order (rw (free, next) refl);
            value = h.value;
          })
    ]
  ]

  end_loop-some :
      (closed : Bool) (u : Updater V T)
      → u.change ≡ none
      → u.queue ≡ none
      → (closed && not u.ended) ≡ true
      → end_loop closed u ≡ some (record u { ended = true })
  end_loop-some closed u free empty over = ground (arith, free, empty, over)

  apply-Served :
      (start : V × Option T) (log : List V) (closed : Bool) (u u' : Updater V T)
      → apply_change api transform step_size closed u ≡ some u'
      → Served start log u
      → Served start log u'
  apply-Served start log closed u u' e h = elim (Option-cases u.change) [
    | inl nothing ↦ cc
    | inr (v, next) ↦
        let moved = applied api transform step_size u v in
        subst (Served start log) (some_same moved u' (rw (← e, next) refl)) (record {
          added = h.added ++ v ∷ [];
          in_order = h.in_order ∙ rw (next, append_assoc) refl;
          value = rw (foldl_snoc, ← h.value) refl;
        })
  ]

  end-Served :
      (start : V × Option T) (log : List V) (closed : Bool) (u u' : Updater V T)
      → end_loop closed u ≡ some u'
      → Served start log u
      → Served start log u'
  end-Served start log closed u u' e h = elim (Option-cases u.change) [
    | inr (v, busy) ↦ cc
    | inl free ↦ elim (Option-cases u.queue) [
      | inr (v, full) ↦ cc
      | inl empty ↦ elim (Bool-cases (closed && not u.ended)) [
        | inr going ↦ cc
        | inl over ↦
            let moved : Updater V T = record u { ended = true } in
            subst (Served start log)
              (some_same moved u' (sym (end_loop-some closed u free empty over) ∙ e))
              (record { added = h.added; in_order = h.in_order; value = h.value })
      ]
    ]
  ]

  queue-Served :
      (start : V × Option T) (log : List V) (u : Updater V T) (v : V)
      → u.queue ≡ none
      → Served start log u
      → Served start (log ++ v ∷ []) (record u { queue = some v })
  queue-Served start log u v free h = record {
    added = h.added;
    in_order =
        ap (λ l. l ++ v ∷ []) h.in_order
        ∙ append_assoc h.added (waiting u) (v ∷ [])
        ∙ ap (λ l. h.added ++ l) (waits_last u v free);
    value = h.value;
  }
    where
      waits_last :
          (u : Updater V T) (v : V)
          → u.queue ≡ none
          → waiting u ++ v ∷ [] ≡ waiting (record u { queue = some v })
      waits_last u v free = ground (arith, free)

  Keeps : (Bool → Updater V T → Option (Updater V T)) → Type 0
  Keeps f =
      (start : V × Option T) (log : List V) (closed : Bool) (u u' : Updater V T)
      → f closed u ≡ some u'
      → Served start log u
      → Served start log u'

  module _ (start : V × Option T) (i : ℕ) (log : List (ℕ × V)) where
    Serves-same :
        (s : ParamServer V T) (calls : List (Call V)) (closed : Bool)
        → Serves start i log s
        → Serves start i (log ++ []) (record s { calls = calls; closed = closed })
    Serves-same s calls closed (u, found, h) = (u, found, rw append-nil h)

    update_updater-Serves :
        (f : Bool → Updater V T → Option (Updater V T))
        → Keeps f
        → (s : ParamServer V T) (j : ℕ) → Serves start i log s
        → After (Unit {0}) (update_updater f s j) (λ more t. Serves start i (log ++ more) t)
    unfolding Keeps update_updater
    update_updater-Serves f keep s j (u, found, h) = elim (Option-cases (get_elem? s.updaters j)) [
      | inl missing ↦ rw (missing, update_updater) tt
      | inr (w, there) ↦ elim (Option-cases (f s.closed w)) [
        | inl stays ↦ rw (there, stays, update_updater) tt
        | inr (w', moved) ↦
            rw (there, moved, update_updater, append-nil)
              (elim (Bool-cases (j == i)) [
                | inl same ↦
                    let j_is : j ≡ i = ==→eq j i same in
                    let w_is : w ≡ u = some_same w u (sym there ∙ rw j_is found) in
                    (
                      w',
                      rw j_is (get_elem?-set_same s.updaters i u w' found),
                      keep start (sent i log) s.closed w w' moved (rw w_is h),
                    )
                | inr other ↦ (u, get_elem?-set_other s.updaters j i w' other ∙ found, h)
              ])
      ]
    ]

    send_change-Serves :
        (s : ParamServer V T) (j k : ℕ)
        → Serves start i log s
        → After (Unit {0}) (send_change s j k) (λ more t. Serves start i (log ++ more) t)
    unfolding send_change sent
    send_change-Serves s j k (u, found, h) = elim (Option-cases (get_elem? s.calls j)) [
      | inl missing ↦ rw (missing, send_change) tt
      | inr (syncing reads locals, call) ↦ rw (call, send_change, send_change) tt
      | inr (updating sends, call) ↦ elim (Option-cases (pick k sends)) [
        | inl gone ↦ rw (call, gone, send_change) tt
        | inr (((p, v), rest), picked) ↦ elim (Bool-cases s.closed) [
          | inl shut ↦ rw (call, picked, shut, send_change) tt
          | inr going ↦ elim (Option-cases (get_elem? s.updaters p)) [
            | inl missing ↦ rw (call, picked, going, missing, send_change) tt
            | inr (w, there) ↦ elim (Option-cases w.queue) [
              | inr (x, full) ↦ rw (call, picked, going, there, full, send_change) tt
              | inl free ↦
                  rw (call, picked, going, there, free, send_change, sent-append)
                    (elim (Bool-cases (p == i)) [
                      | inl same ↦
                          let p_is : p ≡ i = ==→eq p i same in
                          let w_is : w ≡ u = some_same w u (sym there ∙ rw p_is found) in
                          (
                            record w { queue = some v },
                            rw p_is (get_elem?-set_same s.updaters i u _ found),
                            rw same (queue-Served start (sent i log) w v free (rw w_is h)),
                          )
                      | inr other ↦ (
                        u,
                        get_elem?-set_other s.updaters p i _ other ∙ found,
                        rw (other, append-nil) h,
                      )
                    ])
            ]
          ]
        ]
      ]
    ]

    exec-Serves :
        (e : Event V) (s : ParamServer V T)
        → Serves start i log s
        → After
            (Unit {0})
            (exec api transform step_size e s)
            (λ more t. Serves start i (log ++ more) t)
    unfolding exec update sync close_server return_call read_param Keeps
    exec-Serves (begin_update changes) s h = ground (arith, Serves-same s)
    exec-Serves (begin_sync locals) s h = ground (arith, Serves-same s)
    exec-Serves (send j k) s h = send_change-Serves s j k h
    exec-Serves (read j k) s h = ground (arith, Serves-same s)
    exec-Serves (return j) s h = ground (arith, Serves-same s)
    exec-Serves (receive j) s h = update_updater-Serves receive_change receive-Served s j h
    exec-Serves (apply j) s h =
        update_updater-Serves (apply_change api transform step_size) apply-Served s j h
    exec-Serves close s h = ground (arith, Serves-same s)
    exec-Serves (finish j) s h = update_updater-Serves end_loop end-Served s j h

  exec_all-Serves :
      (start : V × Option T) (i : ℕ) (es : List (Event V)) (log : List (ℕ × V))
      (s : ParamServer V T)
      → Serves start i log s
      → After (Unit {0}) (exec_all api transform step_size es log s) (Serves start i)
  unfolding exec_all
  exec_all-Serves start i [] log s h = h
  exec_all-Serves start i (e ∷ es) log s h =
      go (exec api transform step_size e s) refl (exec-Serves start i log e s h)
        (λ more t k. exec_all-Serves start i es (log ++ more) t k)
    where
      go :
          (m : Move V (ParamServer V T))
          → exec api transform step_size e s ≡ m
          → After (Unit {0}) m (λ more t. Serves start i (log ++ more) t)
          → ((more : List (ℕ × V)) (t : ParamServer V T)
              → Serves start i (log ++ more) t
              → After
                  (Unit {0})
                  (exec_all api transform step_size es (log ++ more) t)
                  (Serves start i))
          → After (Unit {0}) (exec_all api transform step_size (e ∷ es) log s) (Serves start i)
      go waits eq h rest = rw (eq, exec_all) tt
      go crashes eq h rest = rw (eq, exec_all) tt
      go (goes error more t) eq h rest = rw (eq, exec_all) (rest more t h)

  new-Serves :
      (trans : Option T) (params : List V) (i : ℕ) (param : V)
      → get_elem? params i ≡ some param
      → Serves (param, trans) i [] (new_param_server trans params)
  unfolding new_param_server sent
  new-Serves trans params i param e = (
    new_updater trans param,
    get_elem?-map (new_updater trans) params i param e,
    record { added = []; in_order = refl; value = refl },
  )

  -- Take a new server, any order of the moves of its goroutines and of the calls of `Update`, `Sync` and
  -- `Close`, and a parameter. The changes that were sent to the goroutine of the parameter are, in the
  -- order in which they were sent, those that have been added to it, each once, through the transformer if
  -- there is one, and then those that it has received or that wait in its channel.
  pub exec_all-Served :
      (trans : Option T) (params : List V) (i : ℕ) (param : V) (es : List (Event V))
      (error : Option Error) (log : List (ℕ × V)) (s : ParamServer V T)
      → get_elem? params i ≡ some param
      → exec_all api transform step_size es [] (new_param_server trans params) ≡ goes error log s
      → (u : Updater V T) × (get_elem? s.updaters i ≡ some u) × Served (param, trans) (sent i log) u
  exec_all-Served trans params i param es error log s e run =
      subst (λ m. After (Unit {0}) m (Serves (param, trans) i)) run
        (exec_all-Serves (param, trans) i es [] _ (new-Serves trans params i param e))
