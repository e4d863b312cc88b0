-- ===== src/Judger/Tests.antt =====
-- anypg/judger.go on small episodes of integers.
use trpo.Prelude.{◌≡◌, refl, List, [], ◌∷◌, map, true, false, arith}
use trpo.Prelude.Int.{ℤ, pos, negsuc, int_float}
use trpo.Prelude.Failure.{ok, panic}
use trpo.Rewards.{Rewards, Batch, tape, totals}
use trpo.Judger.{
  QJudger, TotalJudger, GaeJudger, flatten_rewards, unflatten_rewards, q_loop, q_values, survey,
  standardize, sum_squares, normalize_rewards, q_judge, total_judge, gae_judge,
}
use trpo.Judger.Recursion.{q_spec, gae_specs, gae_judge-gae_specs}
use trpo.Judger.Shape.{dimensions, q_judge_lem}

abbrev episodes : Rewards ℤ
episodes = (pos 1 ∷ pos 2 ∷ []) ∷ [] ∷ (pos 5 ∷ []) ∷ []

abbrev q : QJudger ℤ
q = record { discount = pos 3; normalize = true; epsilon = pos 0 }

abbrev total : TotalJudger ℤ
total = record { normalize = false; epsilon = pos 0 }

abbrev gae : GaeJudger ℤ
gae = record { discount = pos 2; lambda = pos 1 }

q_values_run : q_values (pos 3) (pos 1 ∷ pos 2 ∷ []) ≡ pos 7 ∷ pos 2 ∷ []
unfolding q_values q_loop
q_values_run = refl

normalize_rewards_run : normalize_rewards (pos 1) (pos 0) (pos 1 ∷ pos 3 ∷ []) ≡ pos 0 ∷ pos 0 ∷ []
unfolding normalize_rewards survey standardize sum_squares
normalize_rewards_run = refl

abbrev values_out : List (Batch ℤ)
values_out =
    record { packed = pos 4 ∷ pos 6 ∷ []; present = true ∷ false ∷ true ∷ [] }
    ∷ record { packed = pos 5 ∷ []; present = true ∷ false ∷ false ∷ [] }
    ∷ []

abbrev values : Rewards ℤ
values = (pos 4 ∷ pos 5 ∷ []) ∷ [] ∷ (pos 6 ∷ []) ∷ []

-- 2 - 5 = -3 and then 2 * -3 + (1 - 4 + 2 * 5) = 1
gae_run :
    gae_judge gae values_out episodes ≡ ok ((pos 1 ∷ negsuc 2 ∷ []) ∷ [] ∷ (negsuc 0 ∷ []) ∷ [])
unfolding gae_judge trpo.Judger.gae_all trpo.Judger.gae_loop trpo.Rewards.collect
gae_run = refl

gae_faults : gae_judge gae [] episodes ≡ panic
unfolding gae_judge trpo.Judger.gae_all trpo.Judger.gae_loop trpo.Rewards.collect
gae_faults = refl

gae_judge-gae_specs_example : gae_judge gae values_out episodes ≡ ok (gae_specs gae episodes values)
unfolding tape
gae_judge-gae_specs_example =
    gae_judge-gae_specs gae episodes values values_out refl
      (omega arith, (omega arith, (omega arith, tt))) refl

q_judge_lem_example :
    (out : Rewards ℤ) × (q_judge (pos 1) q episodes ≡ ok out)
    × (dimensions out ≡ dimensions episodes)
    × (flatten_rewards out
        ≡ normalize_rewards (pos 1) (pos 0) (flatten_rewards (map (q_spec (pos 3)) episodes)))
q_judge_lem_example = q_judge_lem (pos 1) q episodes
