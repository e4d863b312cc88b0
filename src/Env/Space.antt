-- ===== src/Env/Space.antt =====
-- env.go: the converters between gym spaces and vectors. A gym observation is a message of another
-- package; what the code calls on it is a parameter.
use package.text.Mathlib.Text.{◌==◌ as str_eq}
use trpo.Prelude.{
  ℕ, suc, ◌+◌, ◌*◌, List, [], ◌∷◌, ◌++◌, Bool, true, false, String, ◌&&◌, length, take, drop, set,
  replicate, ltb, ◌==◌, if◌then◌else◌,
}
use trpo.Prelude.Float.{Float}
use trpo.Prelude.Int.{ℤ, pos, negsuc}
use trpo.Prelude.Failure.{Error, text, ctx, Result, ok, err, panic, ◌>>=◌}

mutual
  -- `gym.Space`: type, shape, N and subspaces
  pub data Space : Type 0 where
    space : String → List ℕ → ℕ → Spaces → Space

  pub data Spaces : Type 0 where
    none : Spaces
    more : Space → Spaces → Spaces

mutual
  -- The four implementations of `gymSpaceConverter`.
  pub data Converter : Type 0 where
    box : ℕ → Converter
    discrete : ℕ → Converter
    multi_binary : ℕ → Converter
    tuple : Converters → Converter

  pub data Converters : Type 0 where
    nil : Converters
    cons : Converter → Converters → Converters

mutual
  -- What `ToGym` gives: a vector, an index, or one value for each element of a tuple.
  pub data Action (F : Type 0) : Type 0 where
    vector : List F → Action F
    index : ℕ → Action F
    values : Actions F → Action F

  pub data Actions (F : Type 0) : Type 0 where
    end : Actions F
    then_one : Action F → Actions F → Actions F

abbrev pub space_length : Error
space_length = text "space vector has incorrect length"

abbrev pub no_one_hot : Error
no_one_hot = text "no one-hot value is set"

-- The value, which the code prints into the message, is left out.
abbrev pub not_binary : Error
not_binary = text "unexpected multi-binary value"

-- The two counts are left out.
abbrev pub tuple_count : Error
tuple_count = text "expected other number of tuple elements"

-- The start of the message stands as a context.
abbrev pub unsupported : String → Error
unsupported type = ctx "unsupported space" (text type)

-- `vecLen *= x` for each dimension
abbrev pub product : ℕ → List ℕ → ℕ
product n [] = n
product n (x ∷ xs) = product (n * x) xs

unfoldable mutual
  pub converter_for_space : Space → Result Converter
  converter_for_space (space type shape n subs) =
      let tuples = converters_for_spaces subs in
      if str_eq type "Box"
      then ok (box (product 1 shape))
      else if str_eq type "Discrete"
      then ok (discrete n)
      else if str_eq type "MultiBinary"
      then ok (multi_binary n)
      else if str_eq type "Tuple"
      then (tuples >>= λ subs'. ok (tuple subs'))
      else err (unsupported type)

  pub converters_for_spaces : Spaces → Result Converters
  converters_for_spaces none = ok nil
  converters_for_spaces (more s rest) =
      converter_for_space s >>= λ c. converters_for_spaces rest >>= λ cs. ok (cons c cs)

unfoldable mutual
  pub vec_len : Converter → ℕ
  vec_len (box n) = n
  vec_len (discrete n) = n
  vec_len (multi_binary n) = n
  vec_len (tuple cs) = vec_lens cs

  pub vec_lens : Converters → ℕ
  vec_lens nil = 0
  vec_lens (cons c cs) = vec_len c + vec_lens cs

-- `in[:n]` and `in[n:]`
abbrev pub cut {ℓ} : {A : Type ℓ} → ℕ → List A → Result (List A × List A)
cut n xs = if ltb (length xs) n then panic else ok (take n xs, drop n xs)

module _ {F : Type 0} ⦃fl : Float F⦄ where
  open fl use {of_ℕ, differs}

  -- `for i, x := range in { if x != 0 { return i, nil } }`
  abbrev pub first_set : ℕ → List F → Result (Action F)
  first_set i [] = err no_one_hot
  first_set i (x ∷ xs) = if differs x (of_ℕ 0) then ok (index i) else first_set (i + 1) xs

  abbrev pub all_binary : List F → Bool
  all_binary [] = true
  all_binary (x ∷ xs) = if differs x (of_ℕ 0) && differs x (of_ℕ 1) then false else all_binary xs

  -- `if len(in) != n { return nil, errSpaceLength }`
  abbrev pub check_len {ℓ} : {A : Type ℓ} → ℕ → List F → Result A → Result A
  check_len n xs r = if length xs == n then r else err space_length

  unfoldable mutual
    unfolding vec_len

    pub to_gym : Converter → List F → Result (Action F)
    to_gym (box n) xs = check_len n xs (ok (vector xs))
    to_gym (discrete n) xs = check_len n xs (first_set 0 xs)
    to_gym (multi_binary n) xs =
        check_len n xs (if all_binary xs then ok (vector xs) else err not_binary)
    to_gym (tuple cs) xs =
        let all = to_gyms cs xs in check_len (vec_lens cs) xs (all >>= λ as'. ok (values as'))

    pub to_gyms : Converters → List F → Result (Actions F)
    to_gyms nil xs = ok end
    to_gyms (cons c cs) xs = cut (vec_len c) xs >>= λ (sub, rest).
        to_gym c sub >>= λ a. to_gyms cs rest >>= λ as'. ok (then_one a as')

-- What the code calls on a `gym.Obs`.
pub record ObsApi (F O : Type 0) : Type 0 where
  pub flatten : O → Result (List F)
  pub unmarshal_int : O → Result ℤ
  pub unmarshal_vector : O → Result (List F)
  pub unpack_tuple : O → Result (List O)

module _ {F O : Type 0} ⦃fl : Float F⦄ (api : ObsApi F O) where
  -- `out[num] = 1` on a vector of zeros
  abbrev pub one_hot : ℕ → ℤ → Result (List F)
  one_hot n (pos i) = if ltb i n then ok (set (replicate n (fl.of_ℕ 0)) i (fl.of_ℕ 1)) else panic
  one_hot n (negsuc _) = panic

  abbrev pub count : Converters → ℕ
  count nil = 0
  count (cons c cs) = suc (count cs)

  unfoldable mutual
    pub from_gym : Converter → O → Result (List F)
    from_gym (box n) o = api.flatten o
    from_gym (discrete n) o = api.unmarshal_int o >>= one_hot n
    from_gym (multi_binary n) o = api.unmarshal_vector o
    from_gym (tuple cs) o = api.unpack_tuple o >>= λ subs.
        if length subs == count cs then from_gyms cs subs else err tuple_count

    pub from_gyms : Converters → List O → Result (List F)
    from_gyms nil os = ok []
    from_gyms (cons c cs) [] = ok []
    from_gyms (cons c cs) (o ∷ os) =
        from_gym c o >>= λ sub. from_gyms cs os >>= λ rest. ok (sub ++ rest)
