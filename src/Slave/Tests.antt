-- ===== src/Slave/Tests.antt =====
-- A slave whose parameters are one number, on an environment of three steps.
use trpo.Prelude.{
  ℕ, ◌+◌, ◌-◌, ◌≡◌, refl, List, [], ◌∷◌, true, false, Option, none, some, ◌==◌, arith, head_or,
  replicate, ap, sym, inr,
}
use trpo.Prelude.Int.{ℤ, pos, int_float}
use trpo.Prelude.Failure.{Error, ok}
use trpo.Env.{Env}
use trpo.Master.{Rollout}
use trpo.Noise.{RandApi, new_noise}
use trpo.Noise.Group.{fresh_group}
use trpo.Slave.{slave_init, StopConds, ParamsApi, Policy, ends, slave_run}
use trpo.Slave.Running.{Within}
use trpo.Slave.Anynet.{anynet_api, slave_update, slave_run-restores}
use trpo.Params.Anynet.{
  Vec, AnynetParams, Serializer, anynet_data, anynet_update, anynet_checksum, split_mutation,
}
use trpo.Params.Restoring.{Faithful}

abbrev three_steps : Env ℤ ℕ
three_steps = record {
  reset = λ _. (pos 3 ∷ [], none, 3);
  step = λ s act. (
    record { obs = pos (s - 1) ∷ []; rew = head_or (pos 0) act; done = s == 1; error = none },
    s - 1,
  );
}

-- Acts with its parameter.
abbrev policy : Policy ℤ ℤ ℕ
policy = record { begin = λ _. 0; step = λ w n obs. (w ∷ [], n + 1) }

abbrev number : ParamsApi ℤ ℤ ℤ
number = record {
  data_of = λ w. ok w;
  set_data = λ d _. (none, d);
  len = λ _. 1;
  mutate = λ w m. some (int_float.plus w (head_or (pos 0) m));
}

abbrev gen : ℤ → ℕ → ℕ → Option (List ℤ)
gen scale seed len = some (scale ∷ [])

abbrev stop_after : ℕ → StopConds
stop_after n = record { max_time = 0; max_steps = n }

run_test :
    slave_run three_steps policy number gen 9 (λ _. true) (stop_after 5) (pos 2) 7 (pos 4) 0
    ≡ some (
      ends
          (some
            (record { scale = pos 2; seed = 7; reward = pos 18; steps = 3; early_stop = false }))
          none,
      0,
      pos 4,
    )
unfolding slave_run
run_test = refl

cut_test :
    slave_run three_steps policy number gen 9 (λ _. true) (stop_after 2) (pos 2) 7 (pos 4) 0
    ≡ some (
      ends
          (some (record { scale = pos 2; seed = 7; reward = pos 12; steps = 2; early_stop = true }))
          none,
      1,
      pos 4,
    )
unfolding slave_run
cut_test = refl

abbrev counting : RandApi ℤ ℕ
counting = record {
  new_source = λ seed. seed;
  int63 = λ s. (s, s + 1);
  norm_float64 = λ s. (pos s, s + 1);
}

init_test : slave_init counting number (pos 4) none (pos 9) 3 2 ≡ (
  ok tt,
  pos 9,
  some (record fresh_group {
    noise = some (record { seed = 3; data_of = pos 3 ∷ pos 4 ∷ []; len_log = 1 });
  }),
)
unfolding slave_init new_noise
init_test = refl

-- Two variables, whose serialized form is the vectors themselves, and a transformer with a counter.
abbrev Saved : Type 0
Saved = List (Vec ℤ) × Option ℕ

abbrev as_it_is : Serializer ℤ ℕ ℕ Saved
as_it_is = record {
  serialize = λ vs bytes. ok (vs, bytes);
  deserialize = λ d has_data. inr d;
  marshal = λ t. ok (t + 1);
  unmarshal = λ t bytes. (none, bytes - 1);
}

ok_same : {A : Type 0} (a b : A) → ok a ≡ ok b → a ≡ b
ok_same a b e = cc

faithful : Faithful as_it_is
faithful = record {
  plain = λ vs d e. ap inr (sym (ok_same _ _ e));
  with_data = λ vs bytes d e. ap inr (sym (ok_same _ _ e));
  own_data = λ t bytes e. ap (λ n. (none, n)) (own t bytes (ok_same _ _ e));
}
  where
    own : (t bytes : ℕ) → t + 1 ≡ bytes → bytes - 1 ≡ t
    own t bytes e = omega (arith, e)

abbrev variables : AnynetParams ℤ ℕ
variables = record {
  params =
      record { creator = 1; comps = pos 4 ∷ [] }
      ∷ record { creator = 1; comps = pos 5 ∷ pos 6 ∷ [] }
      ∷ [];
  transformer = some 7;
  marshals = true;
  step_size = pos 3;
}

abbrev first_acts : Policy ℤ (AnynetParams ℤ ℕ) ℕ
first_acts = record {
  begin = λ w. 0;
  step = λ w n obs. (elim w.params [ [] ↦ [] | v ∷ vs ↦ v.comps ], n + 1);
}

abbrev ones : ℤ → ℕ → ℕ → Option (List ℤ)
ones scale seed n = some (replicate n scale)

slave_run-restores_example :
    (r : Rollout ℤ) × (e : Option Error) × (s' : ℕ) × (slave_run three_steps first_acts
        (anynet_api as_it_is)
        ones
        3
        (λ _. true)
        (stop_after 2)
        (pos 2)
        7
        variables
        0
      ≡ some (ends (some r) e, s', variables))
    × Within (stop_after 2) (pos 2) 7 r
unfolding anynet_data
slave_run-restores_example =
    slave_run-restores as_it_is faithful three_steps first_acts ones (λ _. true) (stop_after 2)
      (pos 2) 7 variables (variables.params, some 8) (pos 2 ∷ pos 2 ∷ pos 2 ∷ []) 0 (omega arith)
      refl refl refl

-- The step size scales what the transformer returns.
update_test :
    slave_update as_it_is
      (λ scales seeds n. some (replicate n (pos 1)))
      (λ t grad. (grad, t + 1))
      (λ d. 5 ∷ 1 ∷ [])
      []
      []
      variables
    ≡ some (
      ok 261,
      record variables {
        params =
            record { creator = 1; comps = pos 7 ∷ [] }
            ∷ record { creator = 1; comps = pos 8 ∷ pos 9 ∷ [] }
            ∷ [];
        transformer = some 8;
      },
    )
unfolding slave_update anynet_update anynet_checksum anynet_data split_mutation
update_test = refl
