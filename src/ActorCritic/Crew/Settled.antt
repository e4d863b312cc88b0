-- ===== src/ActorCritic/Crew/Settled.antt =====
-- `Run` of anya3c/a3c.go returns, when it returns, and what.
pub mod Returning
use trpo.Prelude.{
  ℕ, zero, suc, ◌+◌, ◌*◌, ◌≤◌, ◌<◌, ◌≡◌, ◌⊎◌, inl, inr, refl, ap, sym, ◌∙◌, if◌then◌else◌, List, [],
  ◌∷◌, ◌++◌, Bool, true, false, Option, none, some, length, length-append, replicate, All, subst,
  arith,
}
use trpo.Prelude.Failure.{Error, ctx}
use trpo.ParamServer.Moves.{All-snoc}
use trpo.ActorCritic.Crew.{
  Phase, running, reporting, ended, Main, selecting, waiting, returned, Crew, in_ctx, start_crew,
  IsEnded, Step, quits, fails, sends, closes, takes_error, takes_done, finishes, Steps, here, next,
}

-- What a goroutine may still do: an error and its report, or an end.
moves_left : Phase → ℕ
moves_left running = 2
moves_left (reporting e) = 1
moves_left ended = 0

unfoldable pub total_left : List Phase → ℕ
unfolding moves_left
total_left [] = 0
total_left (p ∷ ps) = moves_left p + total_left ps

-- The goroutines that have not ended.
pub busy : List Phase → ℕ
busy [] = 0
busy (running ∷ ps) = busy ps + 1
busy (reporting e ∷ ps) = busy ps + 1
busy (ended ∷ ps) = busy ps

total_left-append : (ps qs : List Phase) → total_left (ps ++ qs) ≡ total_left ps + total_left qs
unfolding total_left
total_left-append [] qs = omega arith
total_left-append (p ∷ ps) qs = omega (arith, total_left-append ps qs)

busy-append : (ps qs : List Phase) → busy (ps ++ qs) ≡ busy ps + busy qs
unfolding busy
busy-append [] qs = omega arith
busy-append (running ∷ ps) qs = omega (arith, busy-append ps qs)
busy-append (reporting e ∷ ps) qs = omega (arith, busy-append ps qs)
busy-append (ended ∷ ps) qs = busy-append ps qs

main_left : Main → ℕ
main_left selecting = 2
main_left (waiting e) = 1
main_left (returned e) = 0

-- A bound on the moves that are left.
unfoldable pub left : Crew → ℕ
unfolding total_left main_left
left s = total_left s.workers + (if s.done then 0 else 1) + main_left s.main

busy-split :
    (ws before after : List Phase) (p : Phase)
    → ws ≡ before ++ p ∷ after
    → busy ws ≡ busy before + busy (p ∷ after)
busy-split ws before after p e = ap busy e ∙ busy-append before (p ∷ after)

busy_none : (ws : List Phase) → All IsEnded ws → busy ws ≡ 0
unfolding busy
busy_none [] h = refl
busy_none (p ∷ ws) (e, h) = rw e (busy_none ws h)

busy-replicate : (n : ℕ) → busy (replicate n running) ≡ n
unfolding busy
busy-replicate zero = refl
busy-replicate (suc n) = omega (arith, busy-replicate n)

All-split :
    (P : Phase → Type 0) (before after : List Phase) (p q : Phase)
    → P q
    → All P (before ++ p ∷ after)
    → All P (before ++ q ∷ after)
All-split P [] after p q h (_, all) = (h, all)
All-split P (x ∷ before) after p q h (k, all) = (k, All-split P before after p q h all)

All-at :
    (P : Phase → Type 0) (before after : List Phase) (p : Phase) → All P (before ++ p ∷ after) → P p
All-at P [] after p (h, _) = h
All-at P (x ∷ before) after p (_, all) = All-at P before after p all

module _ (n : ℕ) (Fails : Error → Type 0) where
  pub Sound : Phase → Type 0
  Sound running = Unit
  Sound (reporting e) = Fails e
  Sound ended = Unit

  -- What ended the `select`.
  unfoldable pub Origin : Bool → Option Error → Type 0
  Origin done none = done ≡ true
  Origin done (some e) = Fails e

  pub MainFits : Main → Crew → Type 0
  unfolding Origin
  MainFits selecting s = (s.stopped ≡ false) × (length s.err_chan + busy s.workers ≡ n)
  MainFits (waiting r) s = (s.stopped ≡ true) × Origin s.done r
  MainFits (returned e) s =
      (s.stopped ≡ true)
      × (r : Option Error) × (e ≡ in_ctx r)
      × Origin s.done r
      × All IsEnded s.workers

  -- The errors are those of workers, each worker has room for its error, and `Run` waits for what it must.
  pub record Settled (s : Crew) : Type 0 where
    pub sound : All Sound s.workers
    pub sent : All Fails s.err_chan
    pub room : length s.err_chan + busy s.workers ≤ n
    pub main_fits : MainFits s.main s

  All-replicate : (k : ℕ) → All Sound (replicate k running)
  unfolding Sound
  All-replicate zero = tt
  All-replicate (suc k) = (tt, All-replicate k)

  pub start-Settled : Settled (start_crew n)
  unfolding MainFits
  start-Settled = record {
    sound = All-replicate n;
    sent = tt;
    room = omega (arith, busy-replicate n);
    main_fits = (refl, omega (arith, busy-replicate n));
  }

  -- A worker that was not done has moved, and has made no room before `Run` stopped the others.
  moved :
      (m : Main) (s t : Crew)
      → 0 < busy s.workers
      → t.stopped ≡ s.stopped
      → t.done ≡ s.done
      → (s.stopped ≡ true)
        ⊎ (length t.err_chan + busy t.workers ≡ length s.err_chan + busy s.workers)
      → MainFits m s
      → MainFits m t
  unfolding MainFits
  moved selecting s t b st d (inl h) (k, c) = absurd (cc)
  moved selecting s t b st d (inr h) (k, c) = (st ∙ k, h ∙ c)
  moved (waiting r) s t b st d h (k, o) = (st ∙ k, subst (λ x. Origin x r) (sym d) o)
  moved (returned e) s t b st d h (k, r, q, o, all) =
      absurd (omega (arith, busy_none s.workers all))

  closed :
      (m : Main) (s : Crew) → s.done ≡ false → MainFits m s → MainFits m (record s { done = true })
  unfolding MainFits Origin
  closed selecting s d h = h
  closed (waiting none) s d (k, o) = (k, refl)
  closed (waiting (some e)) s d h = h
  closed (returned e) s d (k, none, q, o, all) = (k, none, q, refl, all)
  closed (returned e) s d (k, some x, q, o, all) = (k, some x, q, o, all)

  pub Step-Settled : {s t : Crew} → Step n Fails s t → Settled s → Settled t
  unfolding Sound busy MainFits Origin
  Step-Settled (quits s before after e st) h =
      let split = busy-split s.workers before after running e in
      let split' = busy-append before (ended ∷ after) in
      record {
        sound = All-split Sound before after running ended tt (subst (All Sound) e h.sound);
        sent = h.sent;
        room = omega (arith, split, split', h.room);
        main_fits =
            moved s.main s (record s { workers = before ++ ended ∷ after }) (omega (arith, split))
              refl refl (inl st) h.main_fits;
      }
  Step-Settled (fails s before after x e f) h =
      let split = busy-split s.workers before after running e in
      let split' = busy-append before (reporting x ∷ after) in
      record {
        sound = All-split Sound before after running (reporting x) f (subst (All Sound) e h.sound);
        sent = h.sent;
        room = omega (arith, split, split', h.room);
        main_fits =
            moved s.main s (record s { workers = before ++ reporting x ∷ after })
              (omega (arith, split)) refl refl (inr (omega (arith, split, split'))) h.main_fits;
      }
  Step-Settled (sends s before after x e r) h =
      let split = busy-split s.workers before after (reporting x) e in
      let split' = busy-append before (ended ∷ after) in
      let sound = subst (All Sound) e h.sound in
      let longer = length-append s.err_chan (x ∷ []) in
      let t : Crew = record s {
        workers = before ++ ended ∷ after;
        err_chan = s.err_chan ++ x ∷ [];
      } in
      record {
        sound = All-split Sound before after (reporting x) ended tt sound;
        sent = All-snoc Fails s.err_chan x (All-at Sound before after (reporting x) sound) h.sent;
        room = omega (arith, split, split', longer, h.room);
        main_fits =
            moved s.main s t (omega (arith, split)) refl refl
              (inr (omega (arith, split, split', longer))) h.main_fits;
      }
  Step-Settled (closes s d) h = record {
    sound = h.sound;
    sent = h.sent;
    room = h.room;
    main_fits = closed s.main s d h.main_fits;
  }
  Step-Settled (takes_error s x xs m c) h =
      let sent = subst (All Fails) c h.sent in
      record {
        sound = h.sound;
        sent = sent.1;
        room = omega (arith, ap length c, h.room);
        main_fits = (refl, sent.0);
      }
  Step-Settled (takes_done s m d) h = record {
    sound = h.sound;
    sent = h.sent;
    room = h.room;
    main_fits = (refl, d);
  }
  Step-Settled (finishes s r m all) h =
      let (stopped, origin) = subst (λ x. MainFits x s) m h.main_fits in
      record {
        sound = h.sound;
        sent = h.sent;
        room = h.room;
        main_fits = (stopped, r, refl, origin, all);
      }

  pub Steps-Settled : {s t : Crew} → Steps n Fails s t → Settled s → Settled t
  Steps-Settled here h = h
  Steps-Settled (next r st) h = Step-Settled st (Steps-Settled r h)
