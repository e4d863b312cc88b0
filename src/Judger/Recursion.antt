-- ===== src/Judger/Recursion.antt =====
-- The loops of anypg/judger.go that run from the end of an episode, against recursion on the episode.
use trpo.Prelude.{
  ℕ, zero, suc, ◌+◌, ◌≤◌, ◌≡◌, refl, ap, sym, ◌∙◌, List, [], ◌∷◌, ◌++◌, some, arith, length,
  get_elem?, set, drop, replicate, head_or, get_elem?-some, drop-get_elem?, set-replicate, drop_all,
  append-nil, some-injective, if◌then◌else◌, ltb, dec_lt, lt→ltb, le→ltb, length-drop,
}
use native.Mathlib.Numerals.{add-one}
use trpo.Prelude.Float.{Float}
use trpo.Prelude.Failure.{ok}
use trpo.Rewards.{Rewards, Batch, tape}
use trpo.Rewards.Tape.{collect-tape}
use trpo.Judger.{GaeJudger, q_loop, q_values, gae_loop, gae_all, gae_judge}

module _ {F : Type 0} ⦃fl : Float F⦄ where
  open fl use {of_ℕ, plus, minus, times, differs}

  -- The value of a step is its reward on top of the discounted value of the next step.
  abbrev pub q_spec : F → List F → List F
  q_spec discount [] = []
  q_spec discount (x ∷ xs) =
      let later = q_spec discount xs in
      let next = head_or (of_ℕ 0) later in
      plus (if differs discount (of_ℕ 0) then times next discount else next) x ∷ later

  q_loop-suc :
      (discount : F) (seq : List F) (t : ℕ) (sum x : F) (new_seq : List F)
      → get_elem? seq t ≡ some x
      → let sum' = plus (if differs discount (of_ℕ 0) then times sum discount else sum) x in
        q_loop discount seq (suc t) sum new_seq ≡ q_loop discount seq t sum' (set new_seq t sum')
  unfolding q_loop
  q_loop-suc discount seq t sum x new_seq e = rw (e, q_loop)

  q_loop-q_spec :
      (discount : F) (seq : List F) (t : ℕ)
      → t ≤ length seq
      → q_loop discount seq t
          (head_or (of_ℕ 0) (q_spec discount (drop t seq)))
          (replicate t (of_ℕ 0) ++ q_spec discount (drop t seq))
        ≡ q_spec discount seq
  q_loop-q_spec discount seq zero h = unfold q_loop in refl
  q_loop-q_spec discount seq (suc t) h =
      let (x, e) = get_elem?-some seq t h in
      let ih = q_loop-q_spec discount seq t (omega arith) in
      let later = q_spec discount (drop (suc t) seq) in
      q_loop-suc discount seq t (head_or (of_ℕ 0) later) x (replicate (suc t) (of_ℕ 0) ++ later) e
      ∙ rw (set-replicate t (of_ℕ 0)) (rw (drop-get_elem? seq t x e) at ih)

  -- The loop of `QJudger` computes, for every episode, the sequence in which each value is the step's
  -- reward on top of the next value times the discount factor (no factor, where that is 0).
  pub q_values-q_spec : (discount : F) (seq : List F) → q_values discount seq ≡ q_spec discount seq
  unfolding q_values
  q_values-q_spec discount seq =
      let ends = q_loop-q_spec discount seq (length seq) (omega arith) in
      ap (q_loop discount seq (length seq) (of_ℕ 0)) (sym (append-nil _))
      ∙ rw (drop_all seq) at ends

  -- Generalized advantage estimation: the error of the critic at a step, with the discounted value of
  -- the next state where there is one, on top of the discounted advantage of the next step.
  abbrev pub gae_spec : GaeJudger F → List F → List F → List F
  gae_spec g [] vals = []
  gae_spec g (r ∷ rew) [] = []
  gae_spec g (r ∷ rew) (v ∷ vals) =
      let later = gae_spec g rew vals in
      let delta = minus r v in
      let delta' =
        if ltb 0 (length rew)
        then plus delta (times g.discount (head_or (of_ℕ 0) vals))
        else delta in
      plus (times (head_or (of_ℕ 0) later) (times g.discount g.lambda)) delta' ∷ later

  gae_loop-suc :
      (g : GaeJudger F) (rew val : List F) (t : ℕ) (acc r v : F) (adv : List F)
      → get_elem? rew t ≡ some r
      → get_elem? val t ≡ some v
      → length rew ≤ length val
      → let delta = minus r v in
        let delta' =
          if ltb 0 (length (drop (suc t) rew))
          then plus delta (times g.discount (head_or (of_ℕ 0) (drop (suc t) val)))
          else delta in
        let acc' = plus (times acc (times g.discount g.lambda)) delta' in
        gae_loop g rew val (suc t) acc adv ≡ gae_loop g rew val t acc' (set adv t acc')
  unfolding gae_loop
  gae_loop-suc g rew val t acc r v adv e f h = elim (dec_lt (t + 1) (length rew)) [
    | yes below ↦
        let (next, n) = get_elem?-some val (suc t) (omega arith) in
        let n' : get_elem? val (t + 1) ≡ some next = rw add-one n in
        rw (
          lt→ltb 0 (length (drop (suc t) rew)) (omega (arith, length-drop (suc t) rew)),
          drop-get_elem? val (suc t) next n,
          e,
          f,
          lt→ltb (t + 1) (length rew) below,
          n',
          gae_loop,
        )
    | no last ↦ rw (
      le→ltb 0 (length (drop (suc t) rew)) (omega (arith, length-drop (suc t) rew)),
      e,
      f,
      le→ltb (t + 1) (length rew) (omega arith),
      gae_loop,
    )
  ]

  gae_loop-gae_spec :
      (g : GaeJudger F) (rew val : List F) (t : ℕ)
      → t ≤ length rew
      → length rew ≤ length val
      → gae_loop g rew val t
          (head_or (of_ℕ 0) (gae_spec g (drop t rew) (drop t val)))
          (replicate t (of_ℕ 0) ++ gae_spec g (drop t rew) (drop t val))
        ≡ ok (gae_spec g rew val)
  gae_loop-gae_spec g rew val zero h k = unfold gae_loop in refl
  gae_loop-gae_spec g rew val (suc t) h k =
      let (r, e) = get_elem?-some rew t h in
      let (v, f) = get_elem?-some val t (omega arith) in
      let ih = gae_loop-gae_spec g rew val t (omega arith) k in
      let later = gae_spec g (drop (suc t) rew) (drop (suc t) val) in
      gae_loop-suc g rew val t (head_or (of_ℕ 0) later) r v (replicate (suc t) (of_ℕ 0) ++ later) e
        f k
      ∙ rw (set-replicate t (of_ℕ 0))
          (rw (drop-get_elem? rew t r e, drop-get_elem? val t v f) at ih)

  gae_one :
      (g : GaeJudger F) (rew val : List F)
      → length rew ≤ length val
      → gae_loop g rew val (length rew) (of_ℕ 0) (replicate (length rew) (of_ℕ 0))
        ≡ ok (gae_spec g rew val)
  gae_one g rew val h =
      let ends = gae_loop-gae_spec g rew val (length rew) (omega arith) h in
      ap (gae_loop g rew val (length rew) (of_ℕ 0)) (sym (append-nil _)) ∙ rw (drop_all rew) at ends

  -- The estimates for each episode.
  abbrev pub gae_specs : GaeJudger F → Rewards F → List (List F) → Rewards F
  gae_specs g [] vals = []
  gae_specs g (rew ∷ r) [] = []
  gae_specs g (rew ∷ r) (val ∷ vals) = gae_spec g rew val ∷ gae_specs g r vals

  -- A value for each step of each episode.
  abbrev pub IsCovered : Rewards F → List (List F) → Type 0
  IsCovered [] vals = Unit
  IsCovered (rew ∷ r) [] = ⊥
  IsCovered (rew ∷ r) (val ∷ vals) = (length rew ≤ length val) × IsCovered r vals

  gae_all-gae_specs :
      (g : GaeJudger F) (r : Rewards F) (vals : List (List F))
      → IsCovered r vals
      → gae_all g r vals ≡ ok (gae_specs g r vals)
  unfolding gae_all
  gae_all-gae_specs g [] vals h = refl
  gae_all-gae_specs g (rew ∷ r) [] h = absurd h
  gae_all-gae_specs g (rew ∷ r) (val ∷ vals) (h, hs) =
      rw (gae_one g rew val h, gae_all-gae_specs g r vals hs)

  -- Let the critic give the batches of some value sequences, one for each episode and at least as long
  -- as it. Then `GAEJudger` does not fault, and its advantages are the recursive estimates.
  pub gae_judge-gae_specs :
      (g : GaeJudger F) (r : Rewards F) (vals : List (List F)) (critic_out : List (Batch F))
      → length vals ≡ length r
      → IsCovered r vals
      → tape vals ≡ some critic_out
      → gae_judge g critic_out r ≡ ok (gae_specs g r vals)
  unfolding gae_judge
  gae_judge-gae_specs g r vals critic_out same covered e =
      let (bs, f, read) = collect-tape vals in
      let equal : bs ≡ critic_out = some-injective _ _ (sym f ∙ e) in
      rw (← same, ← equal, read) (gae_all-gae_specs g r vals covered)
