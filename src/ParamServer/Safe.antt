-- ===== src/ParamServer/Safe.antt =====
-- anya3c/param_server.go: the two places that could panic, a send on a closed channel and an index into
-- the updaters.
use trpo.Prelude.{
  ℕ, ◌+◌, ◌<◌, ◌≤◌, ◌≡◌, ◌≢◌, ◌⊎◌, inl, inr, refl, ◌∙◌, subst, List, [], ◌∷◌, ◌++◌, Bool, false,
  Option, some, length, length-map, length-set, get_elem?, get_elem?-some, All, arith, Bool-cases,
  Option-cases,
}
use trpo.ParamServer.{
  VectorApi, Updater, Call, updating, syncing, ParamServer, Event, begin_update, begin_sync, send,
  read, return, receive, apply, close, finish, Move, waits, crashes, goes, new_updater,
  new_param_server, pick, enumerate, indices, send_change, read_param, return_call, is_done,
  receive_change, apply_change, end_loop, update_updater, update, sync, close_server, exec,
  exec_all,
}
use trpo.ParamServer.Moves.{After, All-get_elem?, All-set, All-snoc, All-pick}

abbrev InRange : {V : Type 0} → ℕ → Call V → Type 0
InRange n (updating sends) = All (λ p. p.0 < n) sends
InRange n (syncing reads locals) = All (λ i. i < n) reads

-- No call has more parameters than the server.
abbrev pub Fits : {V : Type 0} → ℕ → Event V → Type 0
Fits n (begin_update changes) = length changes ≤ n
Fits n (begin_sync locals) = length locals ≤ n
Fits n (send j k) = Unit
Fits n (read j k) = Unit
Fits n (return j) = Unit
Fits n (receive i) = Unit
Fits n (apply i) = Unit
Fits n close = Unit
Fits n (finish i) = Unit

enumerate-InRange :
    {V : Type 0} (n i : ℕ) (xs : List V) → i + length xs ≤ n → All (λ p. p.0 < n) (enumerate i xs)
enumerate-InRange n i [] h = tt
enumerate-InRange n i (x ∷ xs) h = (omega arith, enumerate-InRange n (i + 1) xs (omega arith))

indices-InRange :
    {V : Type 0} (n i : ℕ) (xs : List V) → i + length xs ≤ n → All (λ j. j < n) (indices i xs)
indices-InRange n i [] h = tt
indices-InRange n i (x ∷ xs) h = (omega arith, indices-InRange n (i + 1) xs (omega arith))

-- The number of updaters stays, calls that are under way send to updaters that exist, and no call is under
-- way when the server is closed.
pub record Sound {V T : Type 0} (n : ℕ) (s : ParamServer V T) : Type 0 where
  pub sized : length s.updaters ≡ n
  pub in_range : All (InRange n) s.calls
  pub quiet : (s.closed ≡ false) ⊎ (s.calls ≡ [])

abbrev Stays : {V T : Type 0} → ℕ → Move V (ParamServer V T) → Type 0
Stays n m = After ⊥ m (λ more t. Sound n t)

module _ {V T : Type 0} (n : ℕ) (s : ParamServer V T) where
  called :
      (c : Call V)
      → s.closed ≡ false
      → InRange n c
      → Sound n s
      → Sound n (record s { calls = s.calls ++ c ∷ [] })
  called c going h sound = record {
    sized = sound.sized;
    in_range = All-snoc (InRange n) s.calls c h sound.in_range;
    quiet = inl going;
  }

  update-Stays : (changes : List V) → length changes ≤ n → Sound n s → Stays n (update s changes)
  unfolding update
  update-Stays changes h sound = elim (Bool-cases s.closed) [
    | inl shut ↦ ground (arith, shut, sound)
    | inr going ↦ ground (
      arith,
      going,
      called (updating (enumerate 0 changes)) going (enumerate-InRange n 0 changes (omega arith))
          sound,
    )
  ]

  sync-Stays : (locals : List V) → length locals ≤ n → Sound n s → Stays n (sync s locals)
  unfolding sync
  sync-Stays locals h sound = elim (Bool-cases s.closed) [
    | inl shut ↦ ground (arith, shut, sound)
    | inr going ↦ ground (
      arith,
      going,
      called (syncing (indices 0 locals) locals) going (indices-InRange n 0 locals (omega arith))
          sound,
    )
  ]

  close_server-Stays : Sound n s → Stays n (close_server s)
  unfolding close_server
  close_server-Stays sound = go s.calls refl
    where
      go : (cs : List (Call V)) → s.calls ≡ cs → Stays n (close_server s)
      go [] e =
          rw (e, close_server)
            (record { sized = sound.sized; in_range = sound.in_range; quiet = inr e })
      go (c ∷ cs) e = rw (e, close_server) tt

  update_updater-Stays :
      (f : Bool → Updater V T → Option (Updater V T)) (i : ℕ)
      → Sound n s
      → Stays n (update_updater f s i)
  unfolding update_updater
  update_updater-Stays f i sound = elim (Option-cases (get_elem? s.updaters i)) [
    | inl missing ↦ rw (missing, update_updater) tt
    | inr (u, there) ↦ elim (Option-cases (f s.closed u)) [
      | inl stays ↦ rw (there, stays, update_updater) tt
      | inr (u', moved) ↦
          rw (there, moved, update_updater)
            (record {
              sized = length-set s.updaters i u' ∙ sound.sized;
              in_range = sound.in_range;
              quiet = sound.quiet;
            })
    ]
  ]

  -- With a call under way the server is open.
  is_open : (j : ℕ) (c : Call V) → get_elem? s.calls j ≡ some c → Sound n s → s.closed ≡ false
  is_open j c call sound = elim sound.quiet [ inl going ↦ going | inr none_left ↦ cc ]

  send_change-Stays : (j k : ℕ) → Sound n s → Stays n (send_change s j k)
  unfolding send_change
  send_change-Stays j k sound = elim (Option-cases (get_elem? s.calls j)) [
    | inl missing ↦ rw (missing, send_change) tt
    | inr (syncing reads locals, call) ↦ rw (call, send_change) tt
    | inr (updating sends, call) ↦ elim (Option-cases (pick k sends)) [
      | inl gone ↦ rw (call, gone, send_change) tt
      | inr (((p, v), rest), picked) ↦
          let going = is_open j (updating sends) call sound in
          let mine = All-get_elem? (InRange n) s.calls j _ call sound.in_range in
          let (p_in, rest_in) = All-pick (λ p. p.0 < n) k sends (p, v) rest picked mine in
          let (u, there) = get_elem?-some s.updaters p (omega (arith, sound.sized)) in
          elim (Option-cases u.queue) [
            | inr (x, full) ↦ rw (call, picked, going, there, full, send_change) tt
            | inl free ↦
                rw (call, picked, going, there, free, send_change)
                  (record {
                    sized = length-set s.updaters p _ ∙ sound.sized;
                    in_range = All-set (InRange n) s.calls j (updating rest) rest_in sound.in_range;
                    quiet = inl going;
                  })
          ]
    ]
  ]

  read_param-Stays : (j k : ℕ) → Sound n s → Stays n (read_param s j k)
  unfolding read_param
  read_param-Stays j k sound = elim (Option-cases (get_elem? s.calls j)) [
    | inl missing ↦ rw (missing, read_param) tt
    | inr (updating sends, call) ↦ rw (call, read_param) tt
    | inr (syncing reads locals, call) ↦ elim (Option-cases (pick k reads)) [
      | inl gone ↦ rw (call, gone, read_param) tt
      | inr ((i, rest), picked) ↦
          let mine = All-get_elem? (InRange n) s.calls j _ call sound.in_range in
          let (i_in, rest_in) = All-pick (λ i. i < n) k reads i rest picked mine in
          let (u, there) = get_elem?-some s.updaters i (omega (arith, sound.sized)) in
          rw (call, picked, there, read_param)
            (record {
              sized = sound.sized;
              in_range = All-set (InRange n) s.calls j (syncing rest _) rest_in sound.in_range;
              quiet = inl (is_open j _ call sound);
            })
    ]
  ]

  return_call-Stays : (j : ℕ) → Sound n s → Stays n (return_call s j)
  unfolding return_call
  return_call-Stays j sound = elim (Option-cases (pick j s.calls)) [
    | inl missing ↦ rw (missing, return_call) tt
    | inr ((c, rest), picked) ↦ elim (Bool-cases (is_done c)) [
      | inr busy ↦ rw (picked, busy, return_call) tt
      | inl over ↦
          rw (picked, over, return_call)
            (record {
              sized = sound.sized;
              in_range = (All-pick (InRange n) j s.calls c rest picked sound.in_range).1;
              quiet = inl (elim sound.quiet [ inl going ↦ going | inr none_left ↦ cc ]);
            })
    ]
  ]

module _ {F V T : Type 0} (api : VectorApi F V) (transform : T → V → V × T) (step_size : F) where
  exec-Stays :
      (n : ℕ) (e : Event V) (s : ParamServer V T)
      → Fits n e
      → Sound n s
      → Stays n (exec api transform step_size e s)
  unfolding exec
  exec-Stays n (begin_update changes) s h sound = update-Stays n s changes h sound
  exec-Stays n (begin_sync locals) s h sound = sync-Stays n s locals h sound
  exec-Stays n (send j k) s h sound = send_change-Stays n s j k sound
  exec-Stays n (read j k) s h sound = read_param-Stays n s j k sound
  exec-Stays n (return j) s h sound = return_call-Stays n s j sound
  exec-Stays n (receive i) s h sound = update_updater-Stays n s receive_change i sound
  exec-Stays n (apply i) s h sound =
      update_updater-Stays n s (apply_change api transform step_size) i sound
  exec-Stays n close s h sound = close_server-Stays n s sound
  exec-Stays n (finish i) s h sound = update_updater-Stays n s end_loop i sound

  exec_all-Stays :
      (n : ℕ) (es : List (Event V)) (log : List (ℕ × V)) (s : ParamServer V T)
      → All (Fits n) es
      → Sound n s
      → Stays n (exec_all api transform step_size es log s)
  unfolding exec_all
  exec_all-Stays n [] log s fits sound = sound
  exec_all-Stays n (e ∷ es) log s (h, fits) sound =
      go (exec api transform step_size e s) refl (exec-Stays n e s h sound)
        (λ more t k. exec_all-Stays n es (log ++ more) t fits k)
    where
      go :
          (m : Move V (ParamServer V T))
          → exec api transform step_size e s ≡ m
          → Stays n m
          → ((more : List (ℕ × V)) (t : ParamServer V T)
              → Sound n t
              → Stays n (exec_all api transform step_size es (log ++ more) t))
          → Stays n (exec_all api transform step_size (e ∷ es) log s)
      go waits eq h rest = rw (eq, exec_all) tt
      go crashes eq h rest = absurd h
      go (goes error more t) eq h rest = rw (eq, exec_all) (rest more t h)

  new-Sound :
      (trans : Option T) (params : List V) → Sound (length params) (new_param_server trans params)
  unfolding new_param_server
  new-Sound trans params = record {
    sized = length-map (new_updater trans) params;
    in_range = tt;
    quiet = inl refl;
  }

  -- If no local agent has more parameters than the server, then in no order of the moves of the goroutines
  -- and of the calls of `Update`, `Sync` and `Close` does the server panic: nothing is sent on a channel
  -- that `Close` has closed, and no index is out of range.
  pub exec_all-safe :
      (trans : Option T) (params : List V) (es : List (Event V))
      → All (Fits (length params)) es
      → exec_all api transform step_size es [] (new_param_server trans params) ≢ crashes
  exec_all-safe trans params es fits crash =
      subst (Stays (length params)) crash
        (exec_all-Stays (length params) es [] _ fits (new-Sound trans params))
