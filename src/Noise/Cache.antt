-- ===== src/Noise/Cache.antt =====
-- The cache of `NoiseGroup` (anyes/noise.go) against sums that are computed each time.
use trpo.Prelude.{
  ℕ, ◌<◌, ◌≡◌, refl, ap₂, List, [], ◌∷◌, Bool, true, false, not, Option, none, some, length, ◌==◌,
  arith, Bool-cases, inl, inr, ==→eq, All,
}
use trpo.Prelude.Float.{Float}
use trpo.Prelude.Failure.{ok}
use trpo.Noise.{RandApi, Noise, new_noise, gen_sum}
use trpo.Noise.Indices.{gen_sum_total}
use trpo.Noise.Group.{
  DoneChan, nil, empty, holds, NoiseGroup, fresh_group, Request, Outcome, returns, blocks, elems,
  all_same, deep_equal, group_init, noise_sum, cached, group_sum, group_sums,
}

all_same-eq {ℓ} :
    {A : Type ℓ} (same : A → A → Bool)
    → ((a b : A) → same a b ≡ true → a ≡ b)
    → (xs ys : List A) → all_same same xs ys ≡ true
    → xs ≡ ys
all_same-eq same law [] [] h = refl
all_same-eq same law [] (y ∷ ys) h = cc
all_same-eq same law (x ∷ xs) [] h = cc
all_same-eq same law (x ∷ xs) (y ∷ ys) h =
    ap₂ ◌∷◌ (law x y (ground arith)) (all_same-eq same law xs ys (ground arith))

deep_equal-elems {ℓ} :
    {A : Type ℓ} (same : A → A → Bool)
    → ((a b : A) → same a b ≡ true → a ≡ b)
    → (xs ys : Option (List A)) → deep_equal same xs ys ≡ true
    → elems xs ≡ elems ys
deep_equal-elems same law none none h = refl
deep_equal-elems same law none (some ys) h = cc
deep_equal-elems same law (some xs) none h = cc
deep_equal-elems same law (some xs) (some ys) h = all_same-eq same law xs ys h

-- Scales that compare as equal are equal: no scale is a zero of the other sign.
pub record ComparesExactly {F : Type 0} (fl : Float F) : Type 0 where
  pub eq_of_same : (a b : F) → fl.differs a b ≡ false → a ≡ b

module _ {F R : Type 0} ⦃fl : Float F⦄ (api : RandApi F R) (n : Noise F) where
  -- As many scales as seeds, and some parameters to change.
  pub record IsProper (r : Request F) : Type 0 where
    pub even : length (elems r.scales) ≡ length (elems r.seeds)
    pub some_params : 0 < r.amount

  -- What the noise gives without a cache.
  abbrev pub Plain : Request F → List F → Type 0
  Plain r xs = gen_sum api n (elems r.scales) (elems r.seeds) r.amount ≡ some (ok xs)

  -- The channel is `nil` as long as nothing was asked for, and then holds the last sum.
  abbrev CacheOf : NoiseGroup F → DoneChan F → Type 0
  CacheOf g nil = g.amount ≡ 0
  CacheOf g empty = ⊥
  CacheOf g (holds xs) = gen_sum api n (elems g.scales) (elems g.seeds) g.amount ≡ some (ok xs)

  record IsReady (g : NoiseGroup F) : Type 0 where
    noise : g.noise ≡ some n
    cache : CacheOf g g.done_chan

  record IsServed (g : NoiseGroup F) (r : Request F) (o : Outcome F) (g' : NoiseGroup F)
      : Type 0 where
    value : List F
    given : o ≡ returns value
    plain : Plain r value
    ready : IsReady g'

  group_init-fresh :
      (seed len : ℕ)
      → new_noise api seed len ≡ ok n
      → group_init api seed len fresh_group ≡ (ok tt, record fresh_group { noise = some n })
  unfolding group_init
  group_init-fresh seed len made = rw (made, group_init)

  -- What a cache-free noise answers, one by one.
  abbrev pub AllServed : List (Request F) → List (Outcome F) → Type 0
  AllServed [] [] = Unit
  AllServed [] (o ∷ os) = ⊥
  AllServed (r ∷ rs) [] = ⊥
  AllServed (r ∷ rs) (o ∷ os) = (xs : List F) × (o ≡ returns xs) × Plain r xs × AllServed rs os

  module _ (exact : ComparesExactly fl) where
    not-false : (b : Bool) → not b ≡ true → b ≡ false
    not-false b h = ground arith

    cached-Plain :
        (g : NoiseGroup F) (r : Request F) (xs : List F)
        → cached g r ≡ true
        → gen_sum api n (elems g.scales) (elems g.seeds) g.amount ≡ some (ok xs)
        → Plain r xs
    unfolding cached
    cached-Plain g r xs h e =
        let scales : elems g.scales ≡ elems r.scales =
          deep_equal-elems (λ a b. not (fl.differs a b))
            (λ a b same. exact.eq_of_same a b (not-false (fl.differs a b) same)) g.scales r.scales
            (ground arith) in
        let seeds : elems g.seeds ≡ elems r.seeds =
          deep_equal-elems ◌==◌ ==→eq g.seeds r.seeds (ground arith) in
        let amount : g.amount ≡ r.amount = ground arith in rw (scales, seeds, amount) at e

    hit :
        (g : NoiseGroup F) (r : Request F) (c : DoneChan F)
        → g.done_chan ≡ c
        → IsReady g
        → CacheOf g c
        → IsProper r
        → cached g r ≡ true
        → IsServed g r (group_sum api g r).0 (group_sum api g r).1
    hit g r nil e ready k p h = absurd (unfold cached in ground arith)
    hit g r empty e ready k p h = absurd k
    hit g r (holds xs) e ready k p h =
        let run : group_sum api g r ≡ (returns xs, g) = unfold group_sum in ground arith in
        rw run (record { value = xs; given = refl; plain = cached-Plain g r xs h k; ready = ready })

    miss :
        (g : NoiseGroup F) (r : Request F) (xs : List F)
        → IsReady g
        → Plain r xs
        → cached g r ≡ false
        → IsServed g r (group_sum api g r).0 (group_sum api g r).1
    miss g r xs ready k h =
        let fetched : noise_sum api g.noise r ≡ some (ok xs) =
          rw ready.noise (unfold noise_sum in k) in
        let g' : NoiseGroup F = record g {
          scales = r.scales;
          seeds = r.seeds;
          amount = r.amount;
          done_chan = holds xs;
        } in
        let run : group_sum api g r ≡ (returns xs, g') =
          unfold group_sum in rw (h, fetched, group_sum) in
        rw run (record {
          value = xs;
          given = refl;
          plain = k;
          ready = record { noise = ready.noise; cache = k };
        })

    serve :
        (g : NoiseGroup F) (r : Request F) (xs : List F)
        → IsReady g
        → IsProper r
        → Plain r xs
        → IsServed g r (group_sum api g r).0 (group_sum api g r).1
    serve g r xs ready p k = elim (Bool-cases (cached g r)) [
      | inl e ↦ hit g r g.done_chan refl ready ready.cache p e
      | inr e ↦ miss g r xs ready k e
    ]

    serve-All :
        ((r : Request F) → IsProper r → (xs : List F) × Plain r xs)
        → (g : NoiseGroup F) (rs : List (Request F)) → IsReady g
        → All IsProper rs
        → AllServed rs (group_sums api g rs)
    unfolding group_sums
    serve-All total g [] ready p = tt
    serve-All total g (r ∷ rs) ready (p, ps) =
        let (xs, k) = total r p in
        let s = serve g r xs ready p k in
        (s.value, s.given, s.plain, serve-All total (group_sum api g r).1 rs s.ready ps)

    -- Initialize a fresh group for noise of a length above 1, and make any sequence of calls of `GenSum`,
    -- each with as many scales as seeds and for a positive number of parameters. Then every call
    -- returns, and what it returns is what the noise itself gives for that call, whether or not it comes
    -- from the cache. It is assumed that scales which compare as equal are equal.
    pub group_sums_lem :
        (seed len : ℕ) (rs : List (Request F))
        → new_noise api seed len ≡ ok n
        → 1 < len
        → All IsProper rs
        → ((group_init api seed len fresh_group).0 ≡ ok tt)
          × AllServed rs (group_sums api (group_init api seed len fresh_group).1 rs)
    group_sums_lem seed len rs made big p = rw (group_init-fresh seed len made) (
      refl,
      serve-All
          (λ r q.
            let (xs, e, l) =
              gen_sum_total api seed len n (elems r.scales) (elems r.seeds) r.amount made big
                q.even in
            (xs, e))
          (record fresh_group { noise = some n }) rs (record { noise = refl; cache = refl }) p,
    )

  -- Before the first sum the cached arguments are `nil`, `nil` and 0, and the channel is `nil`. So on a
  -- new group a call with no scales, no seeds and no parameters waits for ever.
  pub fresh_group_blocks :
      (seed len : ℕ)
      → new_noise api seed len ≡ ok n
      → (group_sum api
          (group_init api seed len fresh_group).1
          (record { scales = none; seeds = none; amount = 0 })).0
        ≡ blocks
  unfolding group_sum cached
  fresh_group_blocks seed len made = rw (group_init-fresh seed len made) refl
