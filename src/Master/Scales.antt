-- ===== src/Master/Scales.antt =====
-- anyes/stats.go, and `scalesAndSeeds` (anyes/master.go): from rollouts to the noise that an update adds.
use trpo.Prelude.{
  ℕ, suc, ◌≡◌, ◌<◌, refl, ap, sym, ◌∙◌, List, [], ◌∷◌, map, Bool, true, false, some, length,
  length-map, length-replicate, replicate, if◌then◌else◌, Bool-cases, inl, inr, arith,
}
use trpo.Prelude.Float.{Float}
use trpo.Prelude.Failure.{Result, ok, panic, ◌>>=◌}
use trpo.Noise.{RandApi, Noise, new_noise, gen_sum}
use trpo.Noise.Indices.{gen_sum_total}
use trpo.Master.{Rollout}

-- The fields of a `Master` that are read.
pub record Scaling (F : Type 0) : Type 0 where
  pub normalized : Bool
  pub noise_stddev : F
  pub step_size : F

module _ {F : Type 0} ⦃fl : Float F⦄ where
  open fl use {of_ℕ, plus, minus, times, over, sqrt, differs}

  -- `sum += x.Reward`
  pub sum_rewards : F → List (Rollout F) → F
  sum_rewards sum [] = sum
  sum_rewards sum (x ∷ r) = sum_rewards (plus sum x.reward) r

  unfoldable pub mean_reward : List (Rollout F) → F
  unfolding sum_rewards
  mean_reward r = over (sum_rewards (of_ℕ 0) r) (of_ℕ (length r))

  -- The first loop of `normalize`: the sum, and whether all values equal the first.
  pub scan : F → F → Bool → List F → F × Bool
  scan first sum all_equal [] = (sum, all_equal)
  scan first sum all_equal (x ∷ vals) =
      scan first (plus sum x) (if differs x first then false else all_equal) vals

  -- `variance += diff * diff`
  pub sum_diffs : F → F → List F → F
  sum_diffs mean variance [] = variance
  sum_diffs mean variance (x ∷ vals) =
      sum_diffs mean (plus variance (times (minus x mean) (minus x mean))) vals

  unfoldable pub normalize : List F → List F
  unfolding scan sum_diffs
  normalize [] = []
  normalize (x ∷ vals) =
      let (sum, all_equal) = scan x (of_ℕ 0) true (x ∷ vals) in
      let size = of_ℕ (length (x ∷ vals)) in
      let mean = over sum size in
      let variance = over (sum_diffs mean (of_ℕ 0) (x ∷ vals)) size in
      let scale = over (of_ℕ 1) (sqrt variance) in
      if all_equal
      then replicate (length (x ∷ vals)) (of_ℕ 0)
      else map (λ v. times (minus v mean) scale) (x ∷ vals)

  -- `scales[i] *= globalScale * rollout.Scale`
  pub scale_by : F → List F → List (Rollout F) → Result (List F)
  scale_by global scales [] = ok scales
  scale_by global [] (x ∷ r) = panic
  scale_by global (s ∷ scales) (x ∷ r) =
      scale_by global scales r >>= λ rest. ok (times s (times global x.scale) ∷ rest)

  -- `globalScale`
  abbrev pub global_scale : Scaling F → ℕ → F
  global_scale m size =
      let global = over m.step_size (times m.noise_stddev (of_ℕ size)) in
      if m.normalized then global else over global m.noise_stddev

  unfoldable pub scales_and_seeds : Scaling F → List (Rollout F) → Result (List F × List ℕ)
  unfolding scale_by normalize
  scales_and_seeds m r =
      let rewards = map (λ x. x.reward) r in
      let scales = if m.normalized then normalize rewards else rewards in
      scale_by (global_scale m (length r)) scales r >>= λ scaled. ok (scaled, map (λ x. x.seed) r)

  length-normalize : (vals : List F) → length (normalize vals) ≡ length vals
  unfolding normalize
  length-normalize [] = refl
  length-normalize (x ∷ vals) = elim (Bool-cases (scan x (of_ℕ 0) true (x ∷ vals)).1) [
    | inl same ↦ rw (same, normalize) (length-replicate (length (x ∷ vals)) (of_ℕ 0))
    | inr other ↦ rw (other, normalize) (length-map _ (x ∷ vals))
  ]

  scale_by-total :
      (global : F) (scales : List F) (r : List (Rollout F))
      → length scales ≡ length r
      → (scaled : List F) × (scale_by global scales r ≡ ok scaled) × (length scaled ≡ length r)
  unfolding scale_by
  scale_by-total global [] [] e = ([], refl, refl)
  scale_by-total global (s ∷ scales) [] e = absurd (omega (arith, e))
  scale_by-total global [] (x ∷ r) e = absurd (omega (arith, e))
  scale_by-total global (s ∷ scales) (x ∷ r) e =
      let (rest, g, l) = scale_by-total global scales r (omega (arith, e)) in
      (times s (times global x.scale) ∷ rest, rw g refl, ap suc l)

  length-chosen_scales :
      (m : Scaling F) (rewards : List F)
      → length (if m.normalized then normalize rewards else rewards) ≡ length rewards
  length-chosen_scales m rewards = elim (Bool-cases m.normalized) [
    | inl e ↦ rw e (length-normalize rewards)
    | inr e ↦ rw e refl
  ]

  scales_and_seeds-total :
      (m : Scaling F) (r : List (Rollout F))
      → (scales : List F) × (scales_and_seeds m r ≡ ok (scales, map (λ x. x.seed) r))
        × (length scales ≡ length r)
  unfolding scales_and_seeds
  scales_and_seeds-total m r =
      let rewards = map (λ (x : Rollout F). x.reward) r in
      let (scaled, g, l) =
        scale_by-total (global_scale m (length r))
          (if m.normalized then normalize rewards else rewards) r
          (length-chosen_scales m rewards ∙ length-map (λ x. x.reward) r) in
      (scaled, rw (g, scales_and_seeds) refl, l)

module _ {F R : Type 0} ⦃fl : Float F⦄ (api : RandApi F R) where
  -- For noise that `NewNoise` makes with a length above 1, the local update of `Update` has its vector:
  -- whether or not rewards are normalized, `scalesAndSeeds` gives a scale and the seed for each rollout,
  -- without a fault, and `GenSum` of these returns as many numbers as there are parameters.
  scales_and_seeds-gen_sum :
      (m : Scaling F) (r : List (Rollout F)) (seed len amount : ℕ) (n : Noise F)
      → new_noise api seed len ≡ ok n
      → 1 < len
      → (scales : List F) × (xs : List F) × (scales_and_seeds m r
          ≡ ok (scales, map (λ x. x.seed) r))
        × (length scales ≡ length r)
        × (gen_sum api n scales (map (λ x. x.seed) r) amount ≡ some (ok xs))
        × (length xs ≡ amount)
  scales_and_seeds-gen_sum m r seed len amount n made big =
      let (scales, e, l) = scales_and_seeds-total m r in
      let (xs, g, k) =
        gen_sum_total api seed len n scales (map (λ x. x.seed) r) amount made big
          (l ∙ sym (length-map (λ x. x.seed) r)) in
      (scales, xs, e, l, g, k)
