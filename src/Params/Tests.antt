-- ===== src/Params/Tests.antt =====
-- `safeParams` over a number that no value below 10 may replace, and over `AnynetParams`.
use trpo.Prelude.{
  ℕ, ◌+◌, ◌<◌, ◌≡◌, ◌⊎◌, refl, List, [], ◌∷◌, false, none, some, ltb, if◌then◌else◌, inr,
}
use trpo.Prelude.Int.{ℤ, pos, int_float}
use trpo.Prelude.Failure.{text, ok}
use trpo.Params.Anynet.{
  Vec, AnynetParams, Serializer, anynet_data, anynet_set_data, anynet_update, anynet_checksum,
}
use trpo.Params.{
  Params, Call, data_read, data_set, updated, checked, read_data, write_data, add_update,
  read_checksum, make_safe, calls,
}
use trpo.Params.Versioned.{calls_same_version}

abbrev number : Params ℕ ℕ ℕ
number = record {
  data_of = λ w. ok w;
  set_data = λ w d. if ltb d 10 then (some (text "small"), w) else (none, d);
  update = λ w m. w + m;
  checksum = λ w. ok (w + 100);
}

abbrev session : List (Call ℕ ℕ)
session = read_data ∷ write_data 3 ∷ add_update 5 ∷ write_data 20 ∷ read_checksum ∷ []

session_test : calls number (make_safe 1) session ≡ (
  (data_read (ok 1), 0)
      ∷ (data_set (some (text "small")), 0)
      ∷ (updated, 1)
      ∷ (data_set none, 2)
      ∷ (checked (ok 120), 2)
      ∷ [],
  record { version = 2; params = 20 },
)
unfolding calls
session_test = refl

-- Two variables, whose serialized form is their vectors, without a transformer.
abbrev plain : Serializer ℤ ℕ ℕ (List (Vec ℤ))
plain = record {
  serialize = λ vs bytes. ok vs;
  deserialize = λ d has_data. inr (d, none);
  marshal = λ t. ok t;
  unmarshal = λ t bytes. (none, t);
}

-- `AnynetParams` behind the interface; a mutation of another length, which panics, leaves them here.
abbrev variables_api : Params (AnynetParams ℤ ℕ) (List (Vec ℤ)) (List ℤ)
variables_api = record {
  data_of = anynet_data plain;
  set_data = λ a d. anynet_set_data plain d a;
  update = λ a m. elim (anynet_update (λ t grad. (grad, t)) a m) [ none ↦ a | some a' ↦ a' ];
  checksum = anynet_checksum plain (λ d. []);
}

abbrev vec : ℕ → ℤ → Vec ℤ
vec creator x = record { creator = creator; comps = x ∷ [] }

abbrev variables : AnynetParams ℤ ℕ
variables = record {
  params = vec 1 (pos 4) ∷ vec 1 (pos 5) ∷ [];
  transformer = none;
  marshals = false;
  step_size = pos 3;
}

abbrev trained : List (Call (List (Vec ℤ)) (List ℤ))
trained =
    read_data
    ∷ write_data (vec 1 (pos 7) ∷ vec 1 (pos 8) ∷ [])
    ∷ add_update (pos 1 ∷ pos 2 ∷ [])
    ∷ read_checksum
    ∷ []

-- A failed `SetData` has changed the first vector, and not the version.
half_set_test :
    (calls variables_api
      (make_safe variables)
      (write_data (vec 1 (pos 7) ∷ vec 2 (pos 8) ∷ []) ∷ [])).1
    ≡ record {
      version = 0;
      params = record variables { params = vec 1 (pos 7) ∷ vec 1 (pos 5) ∷ [] };
    }
unfolding calls anynet_set_data
half_set_test = refl

calls_same_version_example :
    ((calls variables_api (make_safe variables) trained).1.version ≡ 2)
    × (((calls variables_api (make_safe variables) trained).1 ≡ make_safe variables)
        ⊎ (0 < (calls variables_api (make_safe variables) trained).1.version))
unfolding calls anynet_set_data
calls_same_version_example =
    calls_same_version variables_api (make_safe variables) trained (tt, (tt, (tt, (tt, tt))))
