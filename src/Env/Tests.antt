-- ===== src/Env/Tests.antt =====
-- env.go on a tuple of a discrete and a binary space, and an instance that answers every action.
use trpo.Prelude.{
  ℕ, zero, suc, ◌≡◌, refl, ◌↔◌, List, [], ◌∷◌, Bool, true, false, Option, none, some, arith, map,
  inl, inr,
}
use trpo.Prelude.Int.{ℤ, pos, int_float}
use trpo.Prelude.Failure.{ok, err, panic}
use trpo.Env.{StepOut}
use trpo.Env.Space.{
  Space, space, Spaces, more, Converter, discrete, multi_binary, tuple, nil, cons, Action, vector,
  index, values, Actions, end, then_one, vec_len, to_gym, ObsApi, from_gym, converter_for_space,
  no_one_hot,
}
use trpo.Env.Echo.{TellsZeroOne, IsEcho, Canonical, from_gym-to_gym}
use trpo.Env.Gym.{GymApi, GymEnv, gym_env, gym_reset, gym_step}

abbrev pair : Converter
pair = tuple (cons (discrete 2) (cons (multi_binary 1) nil))

abbrev pair_space : Space
pair_space = space "Tuple" [] 0 (
    more (space "Discrete" [] 2 Spaces.none)
      (more (space "MultiBinary" [] 1 Spaces.none) Spaces.none))

abbrev chosen : List ℤ
chosen = pos 0 ∷ pos 1 ∷ pos 1 ∷ []

abbrev listed : Actions ℤ → List (Action ℤ)
listed end = []
listed (then_one a acts) = a ∷ listed acts

-- An observation is an action.
abbrev echo_api : ObsApi ℤ (Action ℤ)
echo_api = record {
  flatten = elim [ vector xs ↦ ok xs | index i ↦ panic | values acts ↦ panic ];
  unmarshal_int = elim [ vector xs ↦ panic | index i ↦ ok (pos i) | values acts ↦ panic ];
  unmarshal_vector = elim [ vector xs ↦ ok xs | index i ↦ panic | values acts ↦ panic ];
  unpack_tuple = elim [ vector xs ↦ panic | index i ↦ panic | values acts ↦ ok (listed acts) ];
}

-- The state counts the steps.
abbrev echo_gym : GymApi ℤ (Action ℤ) ℕ
echo_gym = record {
  action_space = λ g. ok pair_space;
  observation_space = λ g. ok pair_space;
  reset = λ g. (ok (values (then_one (index 0) (then_one (vector (pos 0 ∷ [])) end))), 0);
  step = λ g a. (a, pos 1, false, none, suc g);
  render = λ g. (none, g);
}

abbrev started : GymEnv ℕ
started = record { env = 3; render = false; act_conv = pair; obs_conv = pair }

made : gym_env echo_api echo_gym 3 false ≡ ok started
unfolding gym_env converter_for_space
made = refl

stepped : gym_step echo_api echo_gym started chosen ≡ (
  some (record { obs = chosen; rew = pos 1; done = false; error = none }),
  record started { env = 4 },
)
unfolding gym_step to_gym from_gym vec_len
stepped = refl

none_chosen : to_gym pair (pos 0 ∷ pos 0 ∷ pos 1 ∷ []) ≡ err no_one_hot
unfolding to_gym vec_len
none_chosen = refl

-- An index out of range in a message is a panic.
bad_index : from_gym echo_api (discrete 2) (index 2) ≡ panic
unfolding from_gym
bad_index = refl

int_laws : TellsZeroOne int_float
int_laws = record { zero_same = refl; one_other = refl }

same_actions : (acts : Actions ℤ) → listed acts ≡ trpo.Env.Echo.encode_all echo_api (λ a. a) acts
same_actions end = refl
same_actions (then_one a acts) = trpo.Prelude.ap (◌∷◌ a) (same_actions acts)

echoes : IsEcho echo_api (λ a. a)
echoes = record {
  of_vector = λ xs. refl;
  of_binary = λ xs. refl;
  of_index = λ i. refl;
  of_values = λ acts. trpo.Prelude.ap ok (same_actions acts);
}

from_gym-to_gym_example :
    (a : Action ℤ) × (to_gym pair chosen ≡ ok a) × (from_gym echo_api pair a ≡ ok chosen)
unfolding Canonical
from_gym-to_gym_example =
    from_gym-to_gym echo_api (λ a. a) int_laws echoes pair chosen
      (
        pos 0 ∷ pos 1 ∷ [],
        pos 1 ∷ [],
        refl,
        (1, omega arith, refl),
        (pos 1 ∷ [], [], refl, (refl, (inr refl, tt)), refl),
      )

reset_run :
    gym_reset echo_api echo_gym started
    ≡ (ok (pos 1 ∷ pos 0 ∷ pos 0 ∷ []), record started { env = 0 })
unfolding gym_reset from_gym
reset_run = refl
