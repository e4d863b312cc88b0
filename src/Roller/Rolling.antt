-- ===== src/Roller/Rolling.antt =====
-- `rolloutChans` (rnn_roller.go): the loop over batches.
use trpo.Prelude.{
  ℕ, zero, suc, ◌/◌, ◌<◌, ◌≡◌, ◌⊎◌, inl, inr, refl, ap, sym, ◌∙◌, subst, List, [], ◌∷◌, ◌++◌, map,
  true, false, Option, some, length, length-append, replicate, ltb, ◌==◌, ==→eq, All, Bool-cases,
  Option-cases, arith, if◌then◌else◌,
}
use trpo.Prelude.Float.{Float}
use trpo.Prelude.Failure.{Error, Result, err, ok}
use trpo.Env.{Env, run}
use trpo.Rewards.{Batch, distribute}
use trpo.Roller.{
  num_present, BlockApi, Tapes, split_actions, rollout_reset, rollout_step, rollout_loop, no_tapes,
  rollout_chans,
}
use trpo.Roller.Lanes.{
  Lane, lane, first, now, rewards, present, IsLane, Short, batch_step-Leads, length-split_actions,
}

-- The tapes have a batch for each step.
abbrev pub Even : {F : Type 0} → Tapes F → Type 0
Even tapes =
    (length tapes.actions ≡ length tapes.inputs) × (length tapes.agent_outs ≡ length tapes.inputs)

same_length :
    {A : Type 0} (xs ys : List A) (x y : A)
    → length xs ≡ length ys
    → length (xs ++ x ∷ []) ≡ length (ys ++ y ∷ [])
same_length xs ys x y e = omega (arith, length-append xs (x ∷ []), length-append ys (y ∷ []))

module _ {F S P G : Type 0} ⦃fl : Float F⦄ (env : Env F S) (block : BlockApi F P G) where
  -- The end of a rollout that began with the environments `starts`: the first error of an environment, or
  -- the rewards of environments that are all done.
  abbrev pub Ends : List S → Option (Result ((List (List F) × Tapes F) × List S)) → Type 0
  Ends starts out =
      ((e : Error) × (out ≡ some (err e)))
      ⊎ ((ls : List (Lane F S)) × (tapes : Tapes F) × (out
            ≡ some (ok ((map rewards ls, tapes), map now ls)))
          × (map first ls ≡ starts)
          × All (IsLane env) ls
          × (num_present (map present ls) ≡ 0)
          × Even tapes)

  none_present :
      (left : S → ℕ) (ls : List (Lane F S))
      → All (Short left 0) ls
      → num_present (map present ls) ≡ 0
  none_present left [] a = refl
  none_present left (lane s0 s rs p ∷ ls) (short, a) = elim short [
    | inl absent ↦ rw absent (none_present left ls a)
    | inr small ↦ absurd (omega arith)
  ]

  module _ (left : S → ℕ)
      (falls : (s : S) (a : List F)
        → (env.step s a).0.done ≡ false
        → left (env.step s a).1 < left s) where
    abbrev batch_of : List F → List (Lane F S) → Batch F
    batch_of packed ls = record { packed = packed; present = map present ls }

    abbrev Stepped : ℕ → List F → List (Lane F S) → Type 0
    Stepped n action ls =
        let out = rollout_step env (batch_of action ls) (map now ls) in
        ((e : Error) × (out ≡ err e))
        ⊎ ((packed reward_batch : List F) × (ls' : List (Lane F S)) × (out
              ≡ ok ((batch_of packed ls', reward_batch), map now ls'))
            × (distribute (map rewards ls) (map present ls) reward_batch ≡ ok (map rewards ls'))
            × (map first ls' ≡ map first ls)
            × All (IsLane env) ls'
            × All (Short left n) ls')

    -- One round with environments that are present.
    rollout_step-Stepped :
        (n : ℕ) (ls : List (Lane F S)) (action : List F)
        → All (IsLane env) ls
        → All (Short left (suc n)) ls
        → Stepped n action ls
    unfolding rollout_step
    rollout_step-Stepped n ls action a sh =
        let size = length action / num_present (map present ls) in
        elim (batch_step-Leads env left falls n ls (split_actions size (map present ls) action) a sh
          (length-split_actions size (map present ls) action)) [
            | inl (e, bad) ↦ inl (e, rw (bad, rollout_step) refl)
            | inr (b, ls', joins, here, envs, given, same, a', sh') ↦ inr (
              b.packed,
              _,
              ls',
              rw (joins, envs, ← here, rollout_step) refl,
              given,
              same,
              a',
              sh',
            )
          ]

    rollout_loop-Ends :
        (n : ℕ) (packed : List F) (state : P) (g : G) (ls : List (Lane F S)) (tapes : Tapes F)
        → All (IsLane env) ls
        → All (Short left n) ls
        → Even tapes
        → Ends (map first ls) (
            rollout_loop env block
              (suc n)
              (batch_of packed ls)
              state
              g
              (map now ls)
              (map rewards ls)
              tapes)
    unfolding rollout_loop
    rollout_loop-Ends zero packed state g ls tapes a sh even =
        let over = none_present left ls sh in
        inr (ls, tapes, rw (over, rollout_loop) refl, refl, a, over, even)
    rollout_loop-Ends (suc n) packed state g ls tapes a sh even =
        let np = num_present (map present ls) in
        let reduced =
          if ltb np (num_present (block.present state))
          then block.reduce (map present ls) state
          else state in
        let (out, state') = block.step reduced packed in
        let (action, g') = block.sample g out np in
        let tapes' : Tapes F = record {
          inputs = tapes.inputs ++ batch_of packed ls ∷ [];
          actions = tapes.actions ++ batch_of action ls ∷ [];
          agent_outs = tapes.agent_outs ++ batch_of out ls ∷ [];
        } in
        let even' : Even tapes' = (
          same_length tapes.actions tapes.inputs _ _ even.0,
          same_length tapes.agent_outs tapes.inputs _ _ even.1,
        ) in
        elim (Bool-cases (np == 0)) [
          | inl over ↦ inr (ls, tapes, rw (over, rollout_loop) refl, refl, a, ==→eq _ _ over, even)
          | inr going ↦ elim (rollout_step-Stepped n ls action a sh) [
            | inl (e, bad) ↦ inl (e, rw (going, bad, rollout_loop) refl)
            | inr (packed', reward_batch, ls', steps, given, same, a', sh') ↦
                elim (rollout_loop-Ends n packed' state' g' ls' tapes' a' sh' even') [
                  | inl (e, ends) ↦ inl (e, rw (going, steps, given, rollout_loop) ends)
                  | inr (ls2, tapes2, ends, firsts, a2, over, even2) ↦ inr (
                    ls2,
                    tapes2,
                    rw (going, steps, given, rollout_loop) ends,
                    firsts ∙ same,
                    a2,
                    over,
                    even2,
                  )
                ]
          ]
        ]

    -- The environments after their resets.
    abbrev begun : S → Lane F S
    begun s = lane (env.reset s).2 (env.reset s).2 [] true

    abbrev Resets : List S → Type 0
    Resets envs =
        ((e : Error) × (rollout_reset env envs ≡ err e))
        ⊎ ((packed : List F) × (rollout_reset env envs
              ≡ ok (batch_of packed (map begun envs), map now (map begun envs))))

    rollout_reset-Resets : (envs : List S) → Resets envs
    unfolding rollout_reset
    rollout_reset-Resets [] = inr ([], refl)
    rollout_reset-Resets (s ∷ envs) = elim (Option-cases (env.reset s).1) [
      | inr (e, bad) ↦ inl (e, rw (bad, rollout_reset) refl)
      | inl good ↦ elim (rollout_reset-Resets envs) [
        | inl (e, bad) ↦ inl (e, rw (good, bad, rollout_reset) refl)
        | inr (packed, rest) ↦ inr ((env.reset s).0 ++ packed, rw (good, rest, rollout_reset) refl)
      ]
    ]

    begun-IsLane : (envs : List S) → All (IsLane env) (map begun envs)
    unfolding run
    begun-IsLane [] = tt
    begun-IsLane (s ∷ envs) = (
      record { actions = []; played = refl; got = refl; no_error = tt; until_done = refl },
      begun-IsLane envs,
    )

    begun-Short :
        (n : ℕ) (envs : List S)
        → All (λ s. left (env.reset s).2 < n) envs
        → All (Short left n) (map begun envs)
    begun-Short n [] few = tt
    begun-Short n (s ∷ envs) (few, fews) = (inr few, begun-Short n envs fews)

    no_rewards :
        (envs : List S)
        → replicate (length (map present (map begun envs))) [] ≡ map rewards (map begun envs)
    no_rewards [] = refl
    no_rewards (s ∷ envs) = ap (◌∷◌ []) (no_rewards envs)

    firsts_begun : (envs : List S) → map first (map begun envs) ≡ map (λ s. (env.reset s).2) envs
    firsts_begun [] = refl
    firsts_begun (s ∷ envs) = ap (◌∷◌ (env.reset s).2) (firsts_begun envs)

    -- If the steps that an environment has left fall with each step that is not its last, and are less than
    -- `n` after a reset, a rollout ends within `n` rounds and does not panic. It returns an error, or, for
    -- each environment, exactly the rewards that this environment gives when it is run by itself after its
    -- reset with some actions, of which none failed and only the last one ended the episode; and the three
    -- tapes have the same number of batches.
    pub rollout_chans-Ends :
        (n : ℕ) (g : G) (envs : List S)
        → All (λ s. left (env.reset s).2 < n) envs
        → Ends (map (λ s. (env.reset s).2) envs) (rollout_chans env block (suc n) g envs)
    unfolding rollout_chans
    rollout_chans-Ends n g [] few = inr ([], no_tapes, refl, refl, tt, refl, (refl, refl))
    rollout_chans-Ends n g (s ∷ envs) few = elim (rollout_reset-Resets (s ∷ envs)) [
      | inl (e, bad) ↦ inl (e, rw (bad, rollout_chans) refl)
      | inr (packed, resets) ↦
          let ls = map begun (s ∷ envs) in
          let size = length (map present ls) in
          rw (resets, ← firsts_begun (s ∷ envs), rollout_chans)
            (subst
              (λ rs. Ends (map first ls) (
                rollout_loop env block (suc n) (batch_of packed ls) (block.start size) g
                  (map now ls) rs no_tapes))
              (sym (no_rewards (s ∷ envs)))
              (rollout_loop-Ends n packed (block.start size) g ls no_tapes (begun-IsLane (s ∷ envs))
                (begun-Short n (s ∷ envs) few) (refl, refl)))
    ]
