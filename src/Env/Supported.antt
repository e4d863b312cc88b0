-- ===== src/Env/Supported.antt =====
-- `converterForSpace` (env.go): which spaces have a converter.
use package.text.Mathlib.Text.{◌==◌ as str_eq}
use trpo.Prelude.{◌≡◌, refl, Bool, true, false, ◌&&◌, ◌||◌, arith}
use trpo.Prelude.Failure.{Result, ok, ◌>>=◌, is_ok, is_panic, Answers}
use trpo.Env.Space.{
  Space, space, Spaces, none, more, Converter, Converters, tuple, cons, converter_for_space,
  converters_for_spaces,
}

-- A space of one of the three plain types, or a tuple of supported spaces.
unfoldable mutual
  pub supported : Space → Bool
  supported (space type shape n subs) =
      (str_eq type "Box" || (str_eq type "Discrete" || str_eq type "MultiBinary"))
      || (str_eq type "Tuple" && all_supported subs)

  pub all_supported : Spaces → Bool
  all_supported none = true
  all_supported (more s rest) = supported s && all_supported rest

tuple-Answers :
    (r : Result Converters) (b : Bool) → Answers r b → Answers (r >>= λ subs. ok (tuple subs)) b
tuple-Answers r b h = ground arith

cons-Answers :
    (r : Result Converter) (rest : Result Converters) (b c : Bool)
    → Answers r b
    → Answers rest c
    → Answers (r >>= λ x. rest >>= λ xs. ok (cons x xs)) (b && c)
cons-Answers r rest b c h k = ground arith

mutual
  unfolding supported converter_for_space

  converter-supported : (s : Space) → Answers (converter_for_space s) (supported s)
  converter-supported (space type shape n subs) = ground (
    arith,
    converters-all_supported subs,
    tuple-Answers (converters_for_spaces subs) (all_supported subs),
  )

  converters-all_supported : (ss : Spaces) → Answers (converters_for_spaces ss) (all_supported ss)
  converters-all_supported none = (refl, refl)
  converters-all_supported (more s rest) =
      cons-Answers (converter_for_space s) (converters_for_spaces rest) (supported s)
        (all_supported rest) (converter-supported s) (converters-all_supported rest)

-- For every space `converterForSpace` returns without a fault. It succeeds exactly on the spaces of
-- type Box, Discrete and MultiBinary, and on the tuples of spaces on which it succeeds.
pub converter_for_space-supported :
    (s : Space)
    → (is_ok (converter_for_space s) ≡ supported s) × (is_panic (converter_for_space s) ≡ false)
converter_for_space-supported s = converter-supported s
