-- ===== src/ActorCritic/Rounds.antt =====
-- The rounds of the loop of `worker` (anya3c/a3c.go), and what each one logs.
use trpo.Prelude.{
  ℕ, suc, ◌<◌, ◌≡◌, ◌⊎◌, inl, inr, refl, ap, ap₂, sym, ◌∙◌, List, [], ◌∷◌, ◌++◌, append_assoc,
  append-nil, map, foldl, Bool, true, false, none, some, if◌then◌else◌, Bool-cases, Option-cases,
}
use trpo.Prelude.Float.{Float}
use trpo.Prelude.Failure.{Error}
use trpo.Env.{Env, run}
use trpo.Worker.{AgentApi, Worker, Rollout, gives, reset_worker, run_rollout}
use trpo.Worker.Rolling.{last_done, run_rollout-Ends}
use trpo.ActorCritic.{
  A3c, ServerApi, Log, episode, updated, Working, returns, goes_on, discount_of, update_worker,
  end_episode,
}

pick-true : {A : Type 0} (b : Bool) (x y : A) → b ≡ true → (if b then x else y) ≡ x
pick-true b x y e = rw e refl

-- A log that gets an entry, and then more.
pub join :
    {A : Type 0} (logging : Bool) (old mid new more : List A) (x : A)
    → mid ≡ (if logging then old ++ x ∷ [] else old)
    → new ≡ (if logging then mid ++ more else mid)
    → new ≡ (if logging then old ++ x ∷ more else old)
join true old mid new more x h k = k ∙ ap (λ l. l ++ more) h ∙ append_assoc old (x ∷ []) more
join false old mid new more x h k = k ∙ h

pub no_more :
    {A : Type 0} (logging : Bool) (old : List A) → old ≡ (if logging then old ++ [] else old)
no_more true old = sym (append-nil old)
no_more false old = refl

module _ {F S L P G R D : Type 0} ⦃fl : Float F⦄ (env : Env F S) (api : AgentApi F L P G)
    (server : ServerApi L R D) (learn : F → Rollout F P → Worker F S L P G → D × F) (id : ℕ)
    (conf : A3c F) where
  -- A round is a rollout, and the worker after it.
  -- What the rounds log if the environment is in `s` and has given `sum` in the episode. Each round logs its
  -- update. One whose last step ends the episode logs the episode with what the environment has given in it,
  -- and the next starts from a reset and from nothing.
  abbrev pub expected_logs : S → F → List (Rollout F P × Worker F S L P G) → List (Log F)
  expected_logs s sum [] = []
  expected_logs s sum ((r, w) ∷ rounds) =
      let (outs, s') = run env.step s r.sampled in
      let sum' = foldl fl.plus sum (map (λ o. o.rew) outs) in
      let over = expected_logs (env.reset s').2 (fl.of_ℕ 0) rounds in
      let going = expected_logs s' sum' rounds in
      updated id (learn (discount_of env api server learn id conf) r w).1
      ∷ (if last_done false outs then episode id sum' ∷ over else going)

  -- The rounds are rollouts of a worker, one after the other.
  abbrev pub Played : S → F → List (Rollout F P × Worker F S L P G) → Type 0
  Played s sum [] = Unit
  Played s sum ((r, w) ∷ rounds) =
      ((w0 : Worker F S L P G) × (w0.env ≡ s)
        × (w0.reward_sum ≡ sum)
        × (run_rollout env api (suc conf.max_steps) conf.max_steps w0 ≡ some (gives r w)))
      × (if w.env_done
          then Played (env.reset w.env).2 (fl.of_ℕ 0) rounds
          else Played w.env w.reward_sum rounds)

  abbrev pub noted : List (Log F) → Log F → List (Log F)
  noted logs x = if conf.logging then logs ++ x ∷ [] else logs

  -- An update that goes on, from `s` to `t`.
  pub record Rolls (s t : Working F S L P G R) : Type 0 where
    pub w0 : Worker F S L P G
    pub r : Rollout F P
    pub env_same : w0.env ≡ s.worker.env
    pub sum_same : w0.reward_sum ≡ s.worker.reward_sum
    pub rolls : run_rollout env api (suc conf.max_steps) conf.max_steps w0 ≡ some (gives r t.worker)
    pub env_next : t.worker.env ≡ (run env.step s.worker.env r.sampled).1
    pub sum_next :
        t.worker.reward_sum
        ≡ foldl fl.plus s.worker.reward_sum
            (map (λ o. o.rew) (run env.step s.worker.env r.sampled).0)
    pub done : t.worker.env_done ≡ last_done false (run env.step s.worker.env r.sampled).0
    pub logs :
        t.logs
        ≡ noted s.logs (updated id (learn (discount_of env api server learn id conf) r t.worker).1)

  pub update_worker-Rolls :
      (s : Working F S L P G R)
      → 0 < conf.max_steps
      → s.worker.env_done ≡ false
      → ((e : Error) × (t : Working F S L P G R) × (update_worker env api server learn id conf
              (suc conf.max_steps)
              s
            ≡ some (returns (some e) t))
          × (t.logs ≡ s.logs))
        ⊎ ((t : Working F S L P G R) × (update_worker env api server learn id conf
                (suc conf.max_steps)
                s
              ≡ some (goes_on t))
            × Rolls s t)
  unfolding update_worker
  update_worker-Rolls s pos starts =
      let (problem, agent, server1) = server.sync s.server s.worker.agent in
      let synced : Worker F S L P G = record s.worker { agent = agent } in
      elim (Option-cases problem) [
        | inr (e, bad) ↦
            inl (
              e,
              record s { worker = synced; server = server1 },
              rw (bad, update_worker) refl,
              refl,
            )
        | inl good ↦ elim (run_rollout-Ends env api conf.max_steps synced pos) [
          | inl (e, w, ends) ↦ inl (
            e,
            record s { worker = w; server = server1 },
            rw (good, ends, update_worker) refl,
            refl,
          )
          | inr (r, w, ends, h) ↦
              let (grad, mse) = learn (discount_of env api server learn id conf) r w in
              let (problem2, server2) = server.update server1 grad w.agent in
              elim (Option-cases problem2) [
                | inr (e, bad2) ↦ inl (
                  e,
                  record s { worker = w; server = server2 },
                  rw (good, ends, bad2, update_worker) refl,
                  refl,
                )
                | inl good2 ↦ inr (
                  record { worker = w; server = server2; logs = noted s.logs (updated id mse) },
                  rw (good, ends, good2, update_worker) refl,
                  record {
                    w0 = synced;
                    r = r;
                    env_same = refl;
                    sum_same = refl;
                    rolls = ends;
                    env_next = rw h.sampled h.played;
                    sum_next = rw h.sampled h.summed;
                    done = rw (h.sampled, ← starts) h.last;
                    logs = refl;
                  },
                )
              ]
        ]
      ]

  -- A round that does not end an episode, before others.
  expected_logs-going :
      (s t : Working F S L P G R) (h : Rolls s t) (rounds : List (Rollout F P × Worker F S L P G))
      → t.worker.env_done ≡ false
      → expected_logs s.worker.env s.worker.reward_sum ((h.r, t.worker) ∷ rounds)
        ≡ updated id (learn (discount_of env api server learn id conf) h.r t.worker).1
          ∷ expected_logs t.worker.env t.worker.reward_sum rounds
  expected_logs-going s t h rounds going =
      let update = updated id (learn (discount_of env api server learn id conf) h.r t.worker).1 in
      let closed = sym h.done ∙ going in
      rw closed (ap₂ (λ e a. update ∷ expected_logs e a rounds) (sym h.env_next) (sym h.sum_next))

  pub expected_logs-over :
      (s t : Working F S L P G R) (h : Rolls s t) (rounds : List (Rollout F P × Worker F S L P G))
      → t.worker.env_done ≡ true
      → expected_logs s.worker.env s.worker.reward_sum ((h.r, t.worker) ∷ rounds)
        ≡ updated id (learn (discount_of env api server learn id conf) h.r t.worker).1
          ∷ episode id t.worker.reward_sum
          ∷ expected_logs (env.reset t.worker.env).2 (fl.of_ℕ 0) rounds
  expected_logs-over s t h rounds over =
      let update = updated id (learn (discount_of env api server learn id conf) h.r t.worker).1 in
      let closed = sym h.done ∙ over in
      rw closed (
        ap₂ (λ e a. update ∷ episode id a ∷ expected_logs (env.reset e).2 (fl.of_ℕ 0) rounds)
          (sym h.env_next) (sym h.sum_next))

  reset-error : (w : Worker F S L P G) → (reset_worker env api w).0 ≡ (env.reset w.env).1
  unfolding reset_worker
  reset-error w = elim (Option-cases (env.reset w.env).1) [
    | inl good ↦ rw (good, reset_worker) refl
    | inr (e, bad) ↦ rw (bad, reset_worker) refl
  ]

  -- The worker after a reset without an error.
  record Fresh (w w' : Worker F S L P G) : Type 0 where
    env_is : w'.env ≡ (env.reset w.env).2
    sum_is : w'.reward_sum ≡ fl.of_ℕ 0
    done_is : w'.env_done ≡ false

  reset_worker-Fresh :
      (w : Worker F S L P G) → (env.reset w.env).1 ≡ none → Fresh w (reset_worker env api w).1
  unfolding reset_worker
  reset_worker-Fresh w good =
      rw (good, reset_worker) (record { env_is = refl; sum_is = refl; done_is = refl })

  -- The end of a round, from the worker in `t` to the loop in `u`.
  pub record Closes (t u : Working F S L P G R) : Type 0 where
    pub starts : u.worker.env_done ≡ false
    pub played :
        (rounds : List (Rollout F P × Worker F S L P G))
        → Played u.worker.env u.worker.reward_sum rounds
        → (if t.worker.env_done
            then Played (env.reset t.worker.env).2 (fl.of_ℕ 0) rounds
            else Played t.worker.env t.worker.reward_sum rounds)
    pub more :
        (s : Working F S L P G R) (h : Rolls s t) (rounds : List (Rollout F P × Worker F S L P G))
        (logs : List (Log F))
        → logs ≡ (
            if conf.logging
            then u.logs ++ expected_logs u.worker.env u.worker.reward_sum rounds
            else u.logs)
        → logs ≡ (
            if conf.logging
            then s.logs ++ expected_logs s.worker.env s.worker.reward_sum ((h.r, t.worker) ∷ rounds)
            else s.logs)

  Closes-going : (t : Working F S L P G R) → t.worker.env_done ≡ false → Closes t t
  Closes-going t going = record {
    starts = going;
    played = λ rounds p. rw going p;
    more = λ s h rounds logs e.
        rw (expected_logs-going s t h rounds going)
          (join conf.logging s.logs t.logs logs _ _ h.logs e);
  }

  Closes-over :
      (t u : Working F S L P G R)
      → t.worker.env_done ≡ true
      → Fresh t.worker u.worker
      → u.logs ≡ noted t.logs (episode id t.worker.reward_sum)
      → Closes t u
  Closes-over t u over fresh e = record {
    starts = fresh.done_is;
    played = λ rounds p. rw over (rw (fresh.env_is, fresh.sum_is) at p);
    more = λ s h rounds logs k.
        let after = expected_logs (env.reset t.worker.env).2 (fl.of_ℕ 0) rounds in
        rw (expected_logs-over s t h rounds over) (
          join conf.logging s.logs t.logs logs _ _ h.logs (
            join conf.logging t.logs u.logs logs after _ e (rw (fresh.env_is, fresh.sum_is) at k)));
  }

  pub end_episode-Closes :
      (t : Working F S L P G R)
      → ((e : Error) × (u : Working F S L P G R) × (end_episode env api server learn id conf t
            ≡ returns (some e) u)
          × (t.worker.env_done ≡ true)
          × (u.logs ≡ noted t.logs (episode id t.worker.reward_sum)))
        ⊎ ((u : Working F S L P G R) × (end_episode env api server learn id conf t ≡ goes_on u)
            × Closes t u)
  unfolding end_episode
  end_episode-Closes t = elim (Bool-cases t.worker.env_done) [
    | inr going ↦ inr (t, rw (going, end_episode) refl, Closes-going t going)
    | inl over ↦
        let opened = pick-true t.worker.env_done _ _ over in
        let u : Working F S L P G R = record t {
          worker = (reset_worker env api t.worker).1;
          logs = noted t.logs (episode id t.worker.reward_sum);
        } in
        elim (Option-cases (env.reset t.worker.env).1) [
          | inr (e, bad) ↦ inl (e, u, opened ∙ rw (reset-error, bad) refl, over, refl)
          | inl good ↦ inr (
            u,
            opened ∙ rw (reset-error, good) refl,
            Closes-over t u over (reset_worker-Fresh t.worker good) refl,
          )
        ]
  ]
