-- ===== src/Prelude/Int.antt =====
-- Integers over the native numbers, and a `Float` whose values they are, for the concrete examples:
-- its quotients are cut to whole numbers and its square root is a stand-in.
use Prim.Native.Nat.{ℕ, suc, ◌+◌, ◌-◌, ◌*◌, ◌/◌}
use mathlib.Core.Bool.{not}
use trpo.Prelude.Tests.{ltb, leb, ◌==◌, if◌then◌else◌}
use trpo.Prelude.Float.{Float}

-- `negsuc n` is -(n + 1).
pub data ℤ : Type 0 where
  pos : ℕ → ℤ
  negsuc : ℕ → ℤ

abbrev pub pos_part : ℤ → ℕ
pos_part (pos n) = n
pos_part (negsuc n) = 0

abbrev pub neg_part : ℤ → ℕ
neg_part (pos n) = 0
neg_part (negsuc n) = suc n

-- a - b, as an integer.
abbrev pub sub_ℕ : ℕ → ℕ → ℤ
sub_ℕ a b = if leb b a then pos (a - b) else negsuc (b - a - 1)

abbrev quotient : ℤ → ℤ → ℤ
quotient a b =
    let n = (pos_part a + neg_part a) / (pos_part b + neg_part b) in
    if (neg_part a == 0)
    then (if neg_part b == 0 then sub_ℕ n 0 else sub_ℕ 0 n)
    else (if neg_part b == 0 then sub_ℕ 0 n else sub_ℕ n 0)

instance abbrev pub int_float : Float ℤ
int_float = record {
  of_ℕ = pos;
  plus = λ a b. sub_ℕ (pos_part a + pos_part b) (neg_part a + neg_part b);
  minus = λ a b. sub_ℕ (pos_part a + neg_part b) (neg_part a + pos_part b);
  times = λ a b.
      sub_ℕ (pos_part a * pos_part b + neg_part a * neg_part b)
        (pos_part a * neg_part b + neg_part a * pos_part b);
  over = quotient;
  sqrt = λ a. a;
  ceil = pos_part;
  differs = λ a b. not (pos_part a + neg_part b == pos_part b + neg_part a);
  below = λ a b. ltb (pos_part a + neg_part b) (pos_part b + neg_part a);
}
