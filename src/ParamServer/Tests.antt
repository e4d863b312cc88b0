-- ===== src/ParamServer/Tests.antt =====
-- The parameter server at concrete inputs: two parameters, and vectors with one component.
use trpo.Prelude.{
  ℕ, ◌+◌, ◌*◌, ◌≡◌, ◌≢◌, refl, List, [], ◌∷◌, true, false, some, none, Option, get_elem?, inl, inr,
  foldl, arith, length,
}
use trpo.Prelude.Failure.{ok}
use trpo.ParamServer.{
  VectorApi, Updater, ParamServer, Event, begin_update, send, return, receive, apply, close, finish,
  crashes, new_param_server, updated, update_updater, update, close_server, exec, exec_all,
  send_change, return_call,
}
use trpo.ParamServer.Applied.{sent, Served, exec_all-Served}
use trpo.ParamServer.Safe.{exec_all-safe}
use trpo.ParamServer.Closing.{Closed, exec_all_complete}
use trpo.ParamServer.LocalCopy.{Agent, BlockApi, copy_agent, all_agent_parameters, local_copy}
use trpo.ParamServer.Copying.{Matches, local_copy-Matches}

abbrev vectors : VectorApi ℕ ℕ
vectors = record { scale = λ x v. x * v; add = λ v w. v + w }

-- A transformer that adds up what it has seen.
abbrev sum_up : ℕ → ℕ → ℕ × ℕ
sum_up t v = (t + v, t + v)

abbrev server : ParamServer ℕ ℕ
unfolding new_param_server
server = new_param_server (some 0) (100 ∷ 200 ∷ [])

abbrev one_update : List (Event ℕ)
one_update =
    begin_update (5 ∷ 7 ∷ [])
    ∷ send 0 1
    ∷ receive 1
    ∷ begin_update (1 ∷ 2 ∷ [])
    ∷ send 1 1
    ∷ apply 1
    ∷ send 0 0
    ∷ return 0
    ∷ receive 0
    ∷ send 0 0
    ∷ return 0
    ∷ []

abbrev then_close : List (Event ℕ)
then_close =
    begin_update (5 ∷ 7 ∷ [])
    ∷ send 0 1
    ∷ send 0 0
    ∷ return 0
    ∷ receive 0
    ∷ apply 0
    ∷ close
    ∷ begin_update (9 ∷ 9 ∷ [])
    ∷ receive 1
    ∷ apply 1
    ∷ finish 0
    ∷ finish 1
    ∷ []

abbrev updater_of : ℕ → Option ℕ → Option ℕ → ℕ → Updater ℕ ℕ
updater_of param queue change trans = record {
  param = param;
  queue = queue;
  change = change;
  trans = some trans;
  ended = false;
}

abbrev after_update : ParamServer ℕ ℕ
after_update = record {
  updaters = updater_of 100 (some 1) (some 5) 0 ∷ updater_of 270 (some 2) none 7 ∷ [];
  calls = [];
  closed = false;
}

abbrev after_close : ParamServer ℕ ℕ
after_close = record {
  updaters =
      record (updater_of 150 none none 5) { ended = true }
      ∷ record (updater_of 270 none none 7) { ended = true }
      ∷ [];
  calls = [];
  closed = true;
}

exec_all-Served_example :
    (u : Updater ℕ ℕ) × (get_elem? after_update.updaters 1 ≡ some u)
    × Served vectors sum_up 10 (200, some 0) (sent 1 ((1, 7) ∷ (1, 2) ∷ (0, 5) ∷ (0, 1) ∷ [])) u
unfolding exec_all exec update_updater update new_param_server send_change return_call
exec_all-Served_example =
    exec_all-Served vectors sum_up 10 (some 0) (100 ∷ 200 ∷ []) 1 200 one_update none
      ((1, 7) ∷ (1, 2) ∷ (0, 5) ∷ (0, 1) ∷ []) after_update refl refl

exec_all-safe_example :
    exec_all vectors sum_up 10 then_close [] (new_param_server (some 0) (100 ∷ 200 ∷ [])) ≢ crashes
exec_all-safe_example =
    exec_all-safe vectors sum_up 10 (some 0) (100 ∷ 200 ∷ []) then_close
      (omega arith, (tt, (tt, (tt, (tt, (tt, (tt, (omega arith, (tt, (tt, (tt, (tt, tt))))))))))))

abbrev is_closed : Closed after_close
is_closed = record {
  shut = refl;
  no_calls = refl;
  all_ended = ((refl, refl, refl), ((refl, refl, refl), tt));
}

abbrev no_log : List (ℕ × ℕ)
no_log = []

exec_all_complete_example :
    (u : Updater ℕ ℕ) × (get_elem? after_close.updaters 0 ≡ some u)
    × ((u.param, u.trans)
        ≡ foldl (updated vectors sum_up 10) (100, some 0) (sent 0 ((1, 7) ∷ (0, 5) ∷ [])))
unfolding exec_all exec update_updater update close_server new_param_server send_change return_call
exec_all_complete_example =
    exec_all_complete vectors sum_up 10 (some 0) (100 ∷ 200 ∷ []) 0 100 then_close none
      ((1, 7) ∷ (0, 5) ∷ []) after_close refl refl is_closed

-- Blocks are numbers, and a block `b` has the two parameters after `b`.
abbrev params_of : List ℕ → List ℕ
params_of [] = []
params_of (b ∷ bs) = (b + 1) ∷ (b + 2) ∷ params_of bs

abbrev block_api : BlockApi ℕ
block_api = record { copy = λ b. ok (b + 50); all_parameters = params_of }

abbrev agent : Agent ℕ
agent = record { base = 10; actor = 20; critic = 30 }

abbrev copied : Agent ℕ
copied = record { base = 60; actor = 70; critic = 80 }

local_copy-Matches_example :
    (found : List ℕ) × (local_copy block_api false agent (31 ∷ 12 ∷ [])
      ≡ ok (record { agent = copied; params = found }))
    × (length found ≡ 2)
    × Matches
        (all_agent_parameters block_api agent)
        (all_agent_parameters block_api copied)
        (31 ∷ 12 ∷ [])
        found
unfolding copy_agent all_agent_parameters
local_copy-Matches_example =
    local_copy-Matches block_api agent copied (31 ∷ 12 ∷ []) refl (omega arith)
      (inr (inr (inr (inr (inl refl)))), (inr (inl refl), tt))
