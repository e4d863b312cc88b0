-- ===== src/Master/ScaleTests.antt =====
-- The scales of two rollouts, and the noise for them.
use trpo.Prelude.{ℕ, ◌+◌, ◌≡◌, refl, List, [], ◌∷◌, Bool, false}
use trpo.Prelude.Int.{ℤ, pos, negsuc, int_float}
use trpo.Prelude.Failure.{ok}
use trpo.Noise.{RandApi, Noise, new_noise}
use trpo.Master.{Rollout}
use trpo.Master.Scales.{Scaling, mean_reward, normalize, scales_and_seeds}

abbrev rollout : ℕ → ℕ → ℤ → Rollout ℤ
rollout seed reward scale = record {
  scale = scale;
  seed = seed;
  reward = pos reward;
  steps = 3;
  early_stop = false;
}

abbrev two : List (Rollout ℤ)
two = rollout 27 6 (pos 2) ∷ rollout 1 4 (negsuc 1) ∷ []

abbrev conf : Bool → Scaling ℤ
conf normalized = record { normalized = normalized; noise_stddev = pos 1; step_size = pos 4 }

mean_test : mean_reward two ≡ pos 5
unfolding mean_reward
mean_test = refl

normalize_test : normalize (pos 6 ∷ pos 4 ∷ []) ≡ pos 1 ∷ negsuc 0 ∷ []
unfolding normalize
normalize_test = refl

scales_test : scales_and_seeds (conf false) two ≡ ok (pos 24 ∷ negsuc 15 ∷ [], 27 ∷ 1 ∷ [])
unfolding scales_and_seeds
scales_test = refl

abbrev counting : RandApi ℤ ℕ
counting = record {
  new_source = λ seed. seed;
  int63 = λ s. (s, s + 1);
  norm_float64 = λ s. (pos s, s + 1);
}

abbrev values : Noise ℤ
values = record { seed = 3; data_of = pos 3 ∷ pos 4 ∷ []; len_log = 1 }

made : new_noise counting 3 2 ≡ ok values
unfolding new_noise
made = refl
