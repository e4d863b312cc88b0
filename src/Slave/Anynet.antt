-- ===== src/Slave/Anynet.antt =====
-- `AnynetSlave` (anyes/slave.go) with its `AnynetParams` (anyes/params.go): `Run`, which puts the parameters
-- back, and `Update`.
use trpo.Prelude.{ℕ, suc, ◌<◌, ◌≡◌, List, Bool, Option, none, some, length, refl}
use trpo.Prelude.Float.{Float}
use trpo.Prelude.Failure.{Error, Result, ok}
use trpo.Env.{Env}
use trpo.Master.{Rollout}
use trpo.Slave.{StopConds, ParamsApi, Policy, ends, slave_run}
use trpo.Slave.Running.{Within, slave_run-Within}
use trpo.Params.Anynet.{
  AnynetParams, Serializer, len_of, add_to_vars, anynet_data, anynet_set_data, anynet_mutate,
  anynet_update, anynet_checksum,
}
use trpo.Params.Restoring.{Faithful, restores, split_mutation_lem}

module _ {F T B D : Type 0} ⦃fl : Float F⦄ (api : Serializer F T B D) where
  -- What a slave calls on its `AnynetParams`.
  abbrev pub anynet_api : ParamsApi F (AnynetParams F T) D
  anynet_api = record {
    data_of = anynet_data api;
    set_data = anynet_set_data api;
    len = λ a. len_of a.params;
    mutate = anynet_mutate;
  }

  -- `Update` of a slave: the checksum and the parameters, or `none` for a panic of `GenSum` or of
  -- `SplitMutation`.
  unfoldable pub slave_update :
      (List F → List ℕ → ℕ → Option (List F))
      → (T → List (List F) → List (List F) × T)
      → (D → List ℕ)
      → List F
      → List ℕ
      → AnynetParams F T
      → Option (Result ℕ × AnynetParams F T)
  slave_update gen_sum transform md5 scales seeds a =
      elim (gen_sum scales seeds (len_of a.params)) [
        | none ↦ none
        | some vec ↦ elim (anynet_update transform a vec) [
          | none ↦ none
          | some a' ↦ some (anynet_checksum api md5 a', a')
        ]
      ]

module _ {F S P T B D : Type 0} ⦃fl : Float F⦄ (api : Serializer F T B D) (laws : Faithful api)
    (env : Env F S) (policy : Policy F (AnynetParams F T) P)
    (gen : F → ℕ → ℕ → Option (List F)) where
  -- A slave with `AnynetParams` that can be serialized, a serializer that gives back what it was given, and
  -- noise of the length that is asked for: with a limit on the steps `Run` ends, its rollout is for the scale
  -- and the seed that were asked for and within the limit, and, with or without an error, the parameters are
  -- afterwards what they were before the mutation, the transformer's included.
  pub slave_run-restores :
      (late : ℕ → Bool) (stop : StopConds) (scale : F) (seed : ℕ) (w : AnynetParams F T) (old : D)
      (mutation : List F) (s : S)
      → 0 < stop.max_steps
      → anynet_data api w ≡ ok old
      → gen scale seed (len_of w.params) ≡ some mutation
      → length mutation ≡ len_of w.params
      → (r : Rollout F) × (e : Option Error) × (s' : S) × (slave_run env policy
            (anynet_api api)
            gen
            (suc stop.max_steps)
            late
            stop
            scale
            seed
            w
            s
          ≡ some (ends (some r) e, s', w))
        × Within stop scale seed r
  unfolding anynet_mutate
  slave_run-restores late stop scale seed w old mutation s pos saved noise long =
      let (parts, splits, same, each) = split_mutation_lem w.params mutation long in
      let mutated = record w { params = add_to_vars w.params parts } in
      let change : anynet_mutate w mutation ≡ some mutated = rw (splits, anynet_mutate) refl in
      slave_run-Within env policy (anynet_api api) gen late stop scale seed w mutated old mutation s
        pos saved noise change (restores api laws w mutated mutation old saved change)
