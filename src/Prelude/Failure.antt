-- ===== src/Prelude/Failure.antt =====
-- How the Go code fails: an `error` that is returned, or a run-time panic.
use Prim.Native.String.{String}
use Prim.Native.Nat.{ℕ}
use mathlib.Core.Path.{◌≡◌}
use mathlib.Core.Bool.{Bool, true, false}

-- The errors that the code makes itself, those of the packages that it calls (by number), and the
-- context that `essentials.AddCtxTo` puts in front of one.
pub data Error : Type 0 where
  text : String → Error
  external : ℕ → Error
  ctx : String → Error → Error

pub data Result {ℓ} (A : Type ℓ) : Type ℓ where
  panic : Result A
  err : Error → Result A
  ok : A → Result A

-- Go on with the value; an error and a panic end the function.
infixl 5 ◌>>=◌
abbrev pub ◌>>=◌ {ℓ κ} : {A : Type ℓ} {B : Type κ} → Result A → (A → Result B) → Result B
◌>>=◌ panic next = panic
◌>>=◌ (err e) next = err e
◌>>=◌ (ok value) next = next value

-- `defer essentials.AddCtxTo(name, &err)`
abbrev pub add_ctx {ℓ} : {A : Type ℓ} → String → Result A → Result A
add_ctx name panic = panic
add_ctx name (err e) = err (ctx name e)
add_ctx name (ok value) = ok value

abbrev pub is_ok {ℓ} : {A : Type ℓ} → Result A → Bool
is_ok panic = false
is_ok (err e) = false
is_ok (ok a) = true

abbrev pub is_panic {ℓ} : {A : Type ℓ} → Result A → Bool
is_panic panic = true
is_panic (err e) = false
is_panic (ok a) = false

-- A call that does not fault, with success exactly when `b` holds.
abbrev pub Answers {ℓ} : {A : Type ℓ} → Result A → Bool → Type 0
Answers r b = (is_ok r ≡ b) × (is_panic r ≡ false)
