-- ===== src/RolloutSet.antt =====
-- rollout_set.go and reduce.go. The tapes of the lazyseq package and the functions on them are
-- parameters; a tape that is `nil` is `none`.
pub mod Reducer
mod Tests
use trpo.Prelude.{
  ℕ, ◌+◌, List, [], ◌∷◌, map, Bool, true, false, Option, none, some, length, set, take, replicate,
  ltb, if◌then◌else◌,
}
use trpo.Prelude.Float.{Float}
use trpo.Prelude.Failure.{Result, ok, panic, ◌>>=◌}
use trpo.Rewards.{Rewards, Batch, pack_rewards, reduce}

pub record RolloutSet (T F : Type 0) : Type 0 where
  pub inputs : Option T
  pub actions : Option T
  pub rewards : Rewards F
  pub agent_outs : Option T

-- `for _, seq := range r.Rewards { count += len(seq) }`
count_steps : {F : Type 0} → ℕ → Rewards F → ℕ
count_steps count [] = count
count_steps count (seq ∷ r) = count_steps (count + length seq) r

-- One round of the loop over the fields: nothing is packed if the first tape is `nil`.
pack_field : {T : Type 0} → (List (Option T) → T) → List (Option T) → Option T
pack_field pack_tape (none ∷ tapes) = none
pack_field pack_tape tapes = some (pack_tape tapes)

module _ {T F : Type 0} where
  pub num_steps : RolloutSet T F → ℕ
  unfolding count_steps
  num_steps r = count_steps 0 r.rewards

  pub pack_rollout_sets : (List (Option T) → T) → List (RolloutSet T F) → RolloutSet T F
  unfolding pack_field
  pack_rollout_sets pack_tape rs = record {
    inputs = pack_field pack_tape (map (λ r. r.inputs) rs);
    actions = pack_field pack_tape (map (λ r. r.actions) rs);
    rewards = pack_rewards (map (λ r. r.rewards) rs);
    agent_outs = pack_field pack_tape (map (λ r. r.agent_outs) rs);
  }

-- What the code uses of lazyseq: `ReduceTape`, and the batches of a tape.
pub record Tapes (T F : Type 0) : Type 0 where
  pub reduce_tape : Option T → List Bool → T
  pub read_tape : T → List (Batch F)

-- A `TapeMaker`, as a function from all that is written to the channel.
abbrev pub TapeMaker : Type 0 → Type 0 → Type 0
TapeMaker T F = List (Batch F) → T

pub record FracReducer (T F : Type 0) : Type 0 where
  pub frac : F
  pub make_input_tape : Option (TapeMaker T F)
  pub make_action_tape : Option (TapeMaker T F)
  pub make_agent_out_tape : Option (TapeMaker T F)

-- `present[j] = true` for each of the indices.
pub mark : List Bool → List ℕ → Result (List Bool)
mark present [] = ok present
mark present (j ∷ js) =
    let rest = mark (set present j true) js in if ltb j (length present) then rest else panic

module _ {T F : Type 0} ⦃fl : Float F⦄ (lib : Tapes T F) where
  -- `reduceTape`
  reduce_with : Option (TapeMaker T F) → Option T → List Bool → T
  reduce_with none t present = lib.reduce_tape t present
  reduce_with (some maker) t present = maker (lib.read_tape (lib.reduce_tape t present))

  -- The result of `Reduce`, for what is present.
  reduced_set : FracReducer T F → RolloutSet T F → List Bool → Rewards F → RolloutSet T F
  unfolding reduce_with
  reduced_set f r present rewards = record {
    inputs = some (reduce_with f.make_input_tape r.inputs present);
    actions = some (reduce_with f.make_action_tape r.actions present);
    rewards = rewards;
    agent_outs = elim r.agent_outs [
      | none ↦ none
      | some t ↦ some (reduce_with f.make_agent_out_tape (some t) present)
    ];
  }

  -- `perm` is `rand.Perm`. The slice of its first elements faults where there are not so many.
  pub frac_reduce : (ℕ → List ℕ) → FracReducer T F → RolloutSet T F → Result (RolloutSet T F)
  unfolding reduced_set
  frac_reduce perm f r =
      let num_seqs = length r.rewards in
      let num_selected = fl.ceil (fl.times f.frac (fl.of_ℕ num_seqs)) in
      if ltb num_seqs num_selected
      then panic
      else mark (replicate num_seqs false) (take num_selected (perm num_seqs)) >>= λ present.
          reduce r.rewards present >>= λ rewards. ok (reduced_set f r present rewards)
