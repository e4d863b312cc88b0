-- ===== src/Logger.antt =====
-- anya3c/logger.go: the loggers of the asynchronous actor-critic. What the log package prints is the list
-- of the messages that reach it; the lock of an averager makes each call of `Add` one move.
pub mod Averages
mod Tests
use trpo.Prelude.{
  ℕ, ◌+◌, List, [], ◌∷◌, ◌++◌, Bool, true, false, Option, none, some, ◌==◌, if◌then◌else◌,
}
use trpo.Prelude.Float.{Float}

pub data Kind : Type 0 where
  episode : Kind
  update : Kind
  regularize : Kind

-- A call of `LogEpisode`, `LogUpdate` or `LogRegularize`.
pub record Message (F : Type 0) : Type 0 where
  pub kind : Kind
  pub worker : ℕ
  pub value : F

pub record StandardLogger : Type 0 where
  pub episodes : Bool
  pub updates : Bool
  pub regularizes : Bool

unfoldable pub standard_log : {F : Type 0} → StandardLogger → Message F → List (Message F)
standard_log s m = elim m.kind [
  | episode ↦ if s.episodes then m ∷ [] else []
  | update ↦ if s.updates then m ∷ [] else []
  | regularize ↦ if s.regularizes then m ∷ [] else []
]

pub record Averager (F : Type 0) : Type 0 where
  pub cur_count : ℕ
  pub cur_sum : Option F

abbrev pub new_averager : {F : Type 0} → Averager F
new_averager = record { cur_count = 0; cur_sum = none }

module _ {F : Type 0} ⦃fl : Float F⦄ where
  open fl use {of_ℕ, plus, over}

  abbrev pub new_sum : Option F → F → F
  new_sum none num = num
  new_sum (some sum) num = plus sum num

  -- `averager.Add`
  unfoldable pub add : ℕ → F → Averager F → Option F × Averager F
  add avg_size num a =
      let sum = new_sum a.cur_sum num in
      if avg_size == 0
      then (some num, a)
      else (if a.cur_count + 1 == avg_size
          then (some (over sum (of_ℕ avg_size)), record { cur_count = 0; cur_sum = some (of_ℕ 0) })
          else (none, record { cur_count = a.cur_count + 1; cur_sum = some sum }))

  -- Some calls of `Add`.
  unfoldable pub add_all : ℕ → List F → Averager F → List (Option F) × Averager F
  unfolding add
  add_all avg_size [] a = ([], a)
  add_all avg_size (num ∷ nums) a =
      let (out, a') = add avg_size num a in
      let (outs, a'') = add_all avg_size nums a' in (out ∷ outs, a'')

pub record AvgLogger (F : Type 0) : Type 0 where
  pub episodes : ℕ
  pub updates : ℕ
  pub regularizes : ℕ
  pub episode_avg : Averager F
  pub update_avg : Averager F
  pub regularize_avg : Averager F

-- `if avg := ...; avg != nil { a.Logger.Log...(workerID, avg) }`
abbrev pub forward : {F : Type 0} → Kind → ℕ → Option F → List (Message F)
forward kind worker none = []
forward kind worker (some avg) = record { kind = kind; worker = worker; value = avg } ∷ []

module _ {F : Type 0} ⦃fl : Float F⦄ where
  -- `LogEpisode`, `LogUpdate` and `LogRegularize` of `AvgLogger`, with what reaches its `Logger`.
  unfoldable pub avg_log : AvgLogger F → Message F → List (Message F) × AvgLogger F
  unfolding add
  avg_log a m = elim m.kind [
    | episode ↦
        let (avg, next) = add a.episodes m.value a.episode_avg in
        (forward episode m.worker avg, record a { episode_avg = next })
    | update ↦
        let (avg, next) = add a.updates m.value a.update_avg in
        (forward update m.worker avg, record a { update_avg = next })
    | regularize ↦
        let (avg, next) = add a.regularizes m.value a.regularize_avg in
        (forward regularize m.worker avg, record a { regularize_avg = next })
  ]

  unfoldable pub avg_logs : AvgLogger F → List (Message F) → List (Message F) × AvgLogger F
  unfolding avg_log
  avg_logs a [] = ([], a)
  avg_logs a (m ∷ ms) =
      let (out, a') = avg_log a m in let (outs, a'') = avg_logs a' ms in (out ++ outs, a'')
