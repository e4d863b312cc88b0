-- ===== src/Noise/Group.antt =====
-- `NoiseGroup` (anyes/noise.go): noise whose last sum is cached. A call holds the lock while it looks at
-- the cache and fills its channel at its end, so calls are modelled as if one ran after the other; a
-- slice that is `nil` is `none`, and callers do not change slices that they have handed in.
use trpo.Prelude.{
  ℕ, List, [], ◌∷◌, Bool, true, false, not, ◌&&◌, Option, none, some, length, replicate, ◌==◌,
  if◌then◌else◌,
}
use trpo.Prelude.Float.{Float}
use trpo.Prelude.Failure.{text, Result, ok, err, panic}
use trpo.Noise.{RandApi, Noise, new_noise, gen_sum}

-- `doneChan`: `nil`, made and not filled, or with a result that is put back after each read
pub data DoneChan (F : Type 0) : Type 0 where
  nil : DoneChan F
  empty : DoneChan F
  holds : List F → DoneChan F

pub record NoiseGroup (F : Type 0) : Type 0 where
  pub noise : Option (Noise F)
  pub scales : Option (List F)
  pub seeds : Option (List ℕ)
  pub amount : ℕ
  pub done_chan : DoneChan F

abbrev pub fresh_group : {F : Type 0} → NoiseGroup F
fresh_group = record { noise = none; scales = none; seeds = none; amount = 0; done_chan = nil }

-- The arguments of `GenSum`.
pub record Request (F : Type 0) : Type 0 where
  pub scales : Option (List F)
  pub seeds : Option (List ℕ)
  pub amount : ℕ

-- How a call ends: with a vector, with a panic, or not at all, since it waits at the channel for ever
-- or its loops do not end.
pub data Outcome (F : Type 0) : Type 0 where
  returns : List F → Outcome F
  faults : Outcome F
  blocks : Outcome F
  loops : Outcome F

abbrev pub elems {ℓ} : {A : Type ℓ} → Option (List A) → List A
elems none = []
elems (some xs) = xs

-- The elements of two slices compared in order.
abbrev pub all_same {ℓ} : {A : Type ℓ} → (A → A → Bool) → List A → List A → Bool
all_same same [] [] = true
all_same same [] (y ∷ ys) = false
all_same same (x ∷ xs) [] = false
all_same same (x ∷ xs) (y ∷ ys) = same x y && all_same same xs ys

-- `reflect.DeepEqual` on slices
abbrev pub deep_equal {ℓ} : {A : Type ℓ} → (A → A → Bool) → Option (List A) → Option (List A) → Bool
deep_equal same none none = true
deep_equal same none (some ys) = false
deep_equal same (some xs) none = false
deep_equal same (some xs) (some ys) = all_same same xs ys

module _ {F : Type 0} ⦃fl : Float F⦄ where
  -- The condition under which the cache is used.
  unfoldable pub cached : NoiseGroup F → Request F → Bool
  cached g r =
      (g.amount == r.amount)
      && (deep_equal (λ a b. not (fl.differs a b)) g.scales r.scales
          && deep_equal ◌==◌ g.seeds r.seeds)

module _ {F R : Type 0} ⦃fl : Float F⦄ (api : RandApi F R) where
  unfoldable pub group_init : ℕ → ℕ → NoiseGroup F → Result (Unit {0}) × NoiseGroup F
  group_init seed len g = elim g.noise [
    | none ↦ elim (new_noise api seed len) [
      | panic ↦ (panic, g)
      | err e ↦ (err e, g)
      | ok n ↦ (ok tt, record g { noise = some n })
    ]
    | some n ↦ (
      (if (n.seed == seed) && (length n.data_of == len)
          then ok tt
          else err (text "init NoiseGroup: different inputs")),
      g,
    )
  ]

  -- A call of a method on a `Noise` that may be `nil`: it panics where it reads a field.
  unfoldable pub noise_sum : Option (Noise F) → Request F → Option (Result (List F))
  noise_sum (some n) r = gen_sum api n (elems r.scales) (elems r.seeds) r.amount
  noise_sum none r = elim (elems r.scales) [
    | [] ↦ elim (elems r.seeds) [
      | [] ↦ some (ok (replicate r.amount (fl.of_ℕ 0)))
      | s ∷ ss ↦ some panic
    ]
    | x ∷ xs ↦ some panic
  ]

  unfoldable pub group_sum : NoiseGroup F → Request F → Outcome F × NoiseGroup F
  group_sum g r =
      let g' : NoiseGroup F = record g {
        scales = r.scales;
        seeds = r.seeds;
        amount = r.amount;
        done_chan = empty;
      } in
      if cached g r
      then (elim g.done_chan [
        | nil ↦ (blocks, g)
        | empty ↦ (blocks, g)
        | holds res ↦ (returns res, g)
      ])
      else elim (noise_sum g.noise r) [
        | none ↦ (loops, g')
        | some panic ↦ (faults, g')
        | some (err e) ↦ (faults, g')
        | some (ok res) ↦ (returns res, record g' { done_chan = holds res })
      ]

  -- A sequence of calls.
  unfoldable pub group_sums : NoiseGroup F → List (Request F) → List (Outcome F)
  group_sums g [] = []
  group_sums g (r ∷ rs) = let (o, g') = group_sum g r in o ∷ group_sums g' rs
