-- ===== src/Logger/Tests.antt =====
-- An averaging logger with episodes in pairs.
use trpo.Prelude.{ℕ, ◌≡◌, refl, [], ◌∷◌, true, false, none, some}
use trpo.Prelude.Int.{ℤ, pos, int_float}
use trpo.Logger.{
  Kind, episode, update, regularize, Message, standard_log, new_averager, AvgLogger, add_all,
  avg_logs,
}

abbrev message : Kind → ℕ → ℕ → Message ℤ
message kind worker value = record { kind = kind; worker = worker; value = pos value }

abbrev pairs : AvgLogger ℤ
pairs = record {
  episodes = 2;
  updates = 0;
  regularizes = 3;
  episode_avg = new_averager;
  update_avg = new_averager;
  regularize_avg = new_averager;
}

log_test :
    (avg_logs pairs (
      message episode 1 4
      ∷ message update 1 9
      ∷ message regularize 2 5
      ∷ message episode 2 8
      ∷ [])).0
    ≡ message update 1 9 ∷ message episode 2 6 ∷ []
unfolding avg_logs
log_test = refl

standard_test :
    standard_log
      (record { episodes = false; updates = true; regularizes = false })
      (message episode 1 4)
    ≡ []
unfolding standard_log
standard_test = refl

average_test :
    add_all 3 (pos 4 ∷ pos 5 ∷ pos 6 ∷ []) new_averager
    ≡ (none ∷ none ∷ some (pos 5) ∷ [], record { cur_count = 0; cur_sum = some (pos 0) })
unfolding add_all
average_test = refl
