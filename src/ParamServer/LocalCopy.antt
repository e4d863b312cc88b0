-- ===== src/ParamServer/LocalCopy.antt =====
-- `LocalCopy` (anya3c/param_server.go) and `Agent.Copy` (anya3c/agent.go): a copy of the agent and the
-- parameters in it that belong to those of the server. Parameters are known by numbers, as by pointers.
use trpo.Prelude.{ℕ, List, [], ◌∷◌, Bool, Option, none, some, ◌==◌, if◌then◌else◌}
use trpo.Prelude.Failure.{text, Result, panic, err, ok, ◌>>=◌, add_ctx}
use trpo.ParamServer.{err_closed}

pub record Agent (B : Type 0) : Type 0 where
  pub base : B
  pub actor : B
  pub critic : B

pub record LocalAgent (B : Type 0) : Type 0 where
  pub agent : Agent B
  pub params : List ℕ

-- `serializer.Copy` and `anynet.AllParameters` of blocks
pub record BlockApi (B : Type 0) : Type 0 where
  pub copy : B → Result B
  pub all_parameters : List B → List ℕ

module _ {B : Type 0} (api : BlockApi B) where
  open api use {copy}

  unfoldable pub all_agent_parameters : Agent B → List ℕ
  all_agent_parameters a = api.all_parameters (a.base ∷ a.actor ∷ a.critic ∷ [])

  unfoldable pub copy_agent : Agent B → Result (Agent B)
  copy_agent a = do
    base ← add_ctx "copy agent base" (copy a.base)
    actor ← add_ctx "copy agent actor" (copy a.actor)
    critic ← add_ctx "copy agent critic" (copy a.critic)
    ok (record { base = base; actor = actor; critic = critic })

-- `globalToLocal` as an association list, with the last entry first. A parameter of the agent that has no
-- counterpart in the copy is an index out of range.
unfoldable pub global_to_local : List (ℕ × ℕ) → List ℕ → List ℕ → Result (List (ℕ × ℕ))
global_to_local entries [] locals = ok entries
global_to_local entries (g ∷ globals) [] = panic
global_to_local entries (g ∷ globals) (l ∷ locals) =
    global_to_local ((g, l) ∷ entries) globals locals

unfoldable pub lookup : List (ℕ × ℕ) → ℕ → Option ℕ
lookup [] g = none
lookup ((k, v) ∷ entries) g = let rest = lookup entries g in if k == g then some v else rest

-- The loop that fills `params`. The error also has the number of the parameter in its text.
unfoldable pub find_locals : List (ℕ × ℕ) → List ℕ → Result (List ℕ)
unfolding lookup
find_locals entries [] = ok []
find_locals entries (g ∷ params) =
    let rest = find_locals entries params in
    elim (lookup entries g) [
      | none ↦ err (text "parameter not found via anynet.AllParameters")
      | some local ↦ rest >>= λ locals. ok (local ∷ locals)
    ]

-- `LocalCopy` of a server for the parameters `params`, with all their locks.
unfoldable pub local_copy :
    {B : Type 0} → BlockApi B → Bool → Agent B → List ℕ → Result (LocalAgent B)
unfolding global_to_local find_locals copy_agent all_agent_parameters
local_copy api closed agent params = add_ctx "copy global agent" (
    if closed then err err_closed else (do
      copied ← copy_agent api agent
      entries ←
          global_to_local [] (all_agent_parameters api agent) (all_agent_parameters api copied)
      locals ← find_locals entries params
      ok (record { agent = copied; params = locals })))
