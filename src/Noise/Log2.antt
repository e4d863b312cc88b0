-- ===== src/Noise/Log2.antt =====
-- `log2` (anyes/noise.go): the exponent of a power of two, and a panic on any other number.
use native.Mathlib.Nat.{pow-le-pow_right, two-pow-succ, one-le-pow}
use native.Mathlib.Numerals.{add-one}
use trpo.Prelude.{
  ℕ, zero, suc, ◌+◌, ◌^◌, ◌≤◌, ◌<◌, ◌≡◌, sym, ap, ◌∙◌, arith, ltb, ◌==◌, Bool-cases, inl, inr, ◌↔◌,
  ==→eq, eq→==, le→ltb, dec_lt, false,
}
use trpo.Prelude.Failure.{ok}
use trpo.Noise.{log2_from, log2}

pow-suc_lt : (i : ℕ) → 2 ^ i < 2 ^ (i + 1)
pow-suc_lt i = rw add-one (omega (arith, two-pow-succ i, one-le-pow i 2 (omega arith)))

pow_lt : {i k : ℕ} → i < k → 2 ^ i < 2 ^ k
pow_lt {i} {k} h =
    omega (
      arith,
      pow-suc_lt i,
      pow-le-pow_right {n = 2} (omega arith) {i = i + 1} {j = k} (omega arith),
    )

-- The loop from `i` on: the exponent is found if it is not past, and nothing else is found.
log2_from-pow : (left i k : ℕ) → i ≤ k → k < i + left → log2_from left i (2 ^ k) ≡ ok k
unfolding log2_from
log2_from-pow zero i k h g = absurd (omega arith)
log2_from-pow (suc left) i k h g = elim (dec_lt i k) [
  | yes below ↦
      let p = pow_lt below in
      rw (neq p, le→ltb (2 ^ k) (2 ^ i) (omega arith))
        (log2_from-pow left (i + 1) k (omega arith) (omega arith))
  | no here ↦ let e : i ≡ k = omega arith in rw (eq→== (2 ^ i) (2 ^ k) (ap (◌^◌ 2) e)) (ap ok e)
]
  where
    neq : {a b : ℕ} → a < b → (a == b) ≡ false
    neq {a} {b} l = ground arith

log2_from-ok : (left i n k : ℕ) → log2_from left i n ≡ ok k → (n ≡ 2 ^ k) × (k < i + left)
unfolding log2_from
log2_from-ok zero i n k h = cc
log2_from-ok (suc left) i n k h = elim (Bool-cases (2 ^ i == n)) [
  | inl e ↦
      let found : i ≡ k = ok-eq i k (rw (e, log2_from) at h) in
      (sym (==→eq (2 ^ i) n e) ∙ ap (◌^◌ 2) found, omega arith)
  | inr e ↦ elim (Bool-cases (ltb n (2 ^ i))) [
    | inl past ↦ cc (rw (e, past, log2_from) at h)
    | inr more ↦
        let (p, q) = log2_from-ok left (i + 1) n k (rw (e, more, log2_from) at h) in
        (p, omega arith)
  ]
]
  where
    ok-eq : (a b : ℕ) → ok a ≡ ok b → a ≡ b
    ok-eq a b x = cc

-- `log2` returns an exponent below 64 exactly when the number is two to the power of that exponent.
pub log2_iff : (n k : ℕ) → ((log2 n ≡ ok k) ↔ ((k < 64) × (n ≡ 2 ^ k)))
unfolding log2
log2_iff n k = (
  λ h. let (e, l) = log2_from-ok 64 0 n k h in (omega arith, e),
  λ (l, e). rw e (log2_from-pow 64 0 k (omega arith) (omega arith)),
)
