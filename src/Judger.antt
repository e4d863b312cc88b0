-- ===== src/Judger.antt =====
-- anypg/judger.go: how good the actions of the rollouts were.
pub mod Shape
pub mod Recursion
mod Tests
use trpo.Prelude.{
  ℕ, zero, suc, ◌+◌, List, [], ◌∷◌, ◌++◌, map, Bool, true, false, Option, none, some, length,
  get_elem?, set, replicate, ltb, if◌then◌else◌,
}
use trpo.Prelude.Float.{Float}
use trpo.Prelude.Failure.{Result, ok, panic, ◌>>=◌}
use trpo.Rewards.{Rewards, Batch, totals, collect}

pub record QJudger (F : Type 0) : Type 0 where
  pub discount : F
  pub normalize : Bool
  pub epsilon : F

pub record TotalJudger (F : Type 0) : Type 0 where
  pub normalize : Bool
  pub epsilon : F

pub record GaeJudger (F : Type 0) : Type 0 where
  pub discount : F
  pub lambda : F

module _ {F : Type 0} where
  pub flatten_rewards : Rewards F → List F
  flatten_rewards [] = []
  flatten_rewards (seq ∷ r) = seq ++ flatten_rewards r

  -- The inner loop of `unflattenRewards`: the new sequence and what is left of `flat`.
  pub fill : List F → List F → Result (List F × List F)
  fill [] flat = ok ([], flat)
  fill (_ ∷ seq) [] = panic
  fill (_ ∷ seq) (x ∷ flat) = fill seq flat >>= λ (new, rest). ok (x ∷ new, rest)

  pub unflatten_rewards : Rewards F → List F → Result (Rewards F)
  unfolding fill
  unflatten_rewards [] flat = ok []
  unflatten_rewards (seq ∷ output) flat =
      fill seq flat >>= λ (new, rest). unflatten_rewards output rest >>= λ news. ok (new ∷ news)

module _ {F : Type 0} ⦃fl : Float F⦄ where
  open fl use {of_ℕ, plus, minus, times, over, sqrt, differs}

  -- `for t := len(seq) - 1; t >= 0; t--`, with `t + 1` rounds to go
  pub q_loop : F → List F → ℕ → F → List F → List F
  q_loop discount seq zero sum new_seq = new_seq
  q_loop discount seq (suc t) sum new_seq =
      let scaled = if differs discount (of_ℕ 0) then times sum discount else sum in
      elim (get_elem? seq t) [
        | none ↦ new_seq
        | some x ↦ q_loop discount seq t (plus scaled x) (set new_seq t (plus scaled x))
      ]

  pub q_values : F → List F → List F
  unfolding q_loop
  q_values discount seq =
      q_loop discount seq (length seq) (of_ℕ 0) (replicate (length seq) (of_ℕ 0))

  -- The loop that adds up and compares with `rewards[0]`.
  survey : F → F → Bool → List F → F × Bool
  survey first sum heterogeneous [] = (sum, heterogeneous)
  survey first sum heterogeneous (x ∷ xs) =
      survey first (plus sum x) (if differs x first then true else heterogeneous) xs

  sum_squares : F → List F → F
  sum_squares sum [] = sum
  sum_squares sum (x ∷ xs) = sum_squares (plus sum (times x x)) xs

  -- The part of `normalize` for rewards that are not all equal; `eps` is the fudge factor used.
  standardize : F → F → List F → List F
  standardize eps sum rewards =
      let n = of_ℕ (length rewards) in
      let mean = over sum n in
      let centred = map (λ x. minus x mean) rewards in
      let variance = over (sum_squares (of_ℕ 0) centred) n in
      let normalizer = over (of_ℕ 1) (plus (sqrt variance) eps) in
      map (λ x. times x normalizer) centred

  -- `one_e8` is the constant 1e-8.
  pub normalize_rewards : F → F → List F → List F
  normalize_rewards one_e8 epsilon [] = []
  normalize_rewards one_e8 epsilon (first ∷ more) =
      let (sum, heterogeneous) = survey first (of_ℕ 0) false (first ∷ more) in
      if heterogeneous
      then standardize (if differs epsilon (of_ℕ 0) then epsilon else one_e8) sum (first ∷ more)
      else map (λ x. of_ℕ 0) (first ∷ more)

  -- `QJudger.JudgeActions`, on the rewards of the rollouts
  pub q_judge : F → QJudger F → Rewards F → Result (Rewards F)
  q_judge one_e8 q r =
      let res = map (q_values q.discount) r in
      if q.normalize
      then unflatten_rewards res (normalize_rewards one_e8 q.epsilon (flatten_rewards res))
      else ok res

  -- The loop of `TotalJudger.JudgeActions`; `totals[seqIdx]` is read at each step.
  repeat_totals : Rewards F → List F → Result (Rewards F)
  repeat_totals [] sums = ok []
  repeat_totals ([] ∷ r) [] = repeat_totals r [] >>= λ rest. ok ([] ∷ rest)
  repeat_totals ((_ ∷ _) ∷ r) [] = panic
  repeat_totals (seq ∷ r) (x ∷ sums) = repeat_totals r sums >>= λ rest. ok (map (λ _. x) seq ∷ rest)

  pub total_judge : F → TotalJudger F → Rewards F → Result (Rewards F)
  unfolding repeat_totals
  total_judge one_e8 t r =
      let sums = totals r in
      repeat_totals r (if t.normalize then normalize_rewards one_e8 t.epsilon sums else sums)

  -- `for t := len(rewSeq) - 1; t >= 0; t--`, with `t + 1` rounds to go. It faults where the critic
  -- gave too few values.
  pub gae_loop : GaeJudger F → List F → List F → ℕ → F → List F → Result (List F)
  gae_loop g rew val zero acc adv = ok adv
  gae_loop g rew val (suc t) acc adv = elim (get_elem? rew t) [
    | none ↦ panic
    | some r ↦ elim (get_elem? val t) [
      | none ↦ panic
      | some v ↦
          let delta = minus r v in
          let step = λ (delta' : F).
            let acc' = plus (times acc (times g.discount g.lambda)) delta' in
            gae_loop g rew val t acc' (set adv t acc') in
          if ltb (t + 1) (length rew)
          then elim (get_elem? val (t + 1)) [
            | none ↦ panic
            | some next ↦ step (plus delta (times g.discount next))
          ]
          else step delta
    ]
  ]

  gae_all : GaeJudger F → Rewards F → List (List F) → Result (Rewards F)
  unfolding gae_loop
  gae_all g [] vals = ok []
  gae_all g (rew ∷ r) [] = panic
  gae_all g (rew ∷ r) (val ∷ vals) =
      gae_loop g rew val (length rew) (of_ℕ 0) (replicate (length rew) (of_ℕ 0)) >>= λ adv.
      gae_all g r vals >>= λ rest. ok (adv ∷ rest)

  -- `GAEJudger.JudgeActions`; `critic_out` are the batches that come from `ValueFunc`.
  pub gae_judge : GaeJudger F → List (Batch F) → Rewards F → Result (Rewards F)
  unfolding gae_all
  gae_judge g critic_out r =
      collect (replicate (length r) []) critic_out >>= λ vals. gae_all g r vals
