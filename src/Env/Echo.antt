-- ===== src/Env/Echo.antt =====
-- Round trip through gym (env.go): an environment that sends each action back as its observation.
use trpo.Prelude.{
  ℕ, zero, suc, ◌+◌, ◌<◌, ◌≡◌, refl, ap, List, [], ◌∷◌, ◌++◌, All, true, false, arith, length, set,
  replicate, length-set, length-replicate, lt→ltb, eq→==, take-append_length, drop-append_length,
  ◌∙◌, sym, le→ltb, length-append,
}
use trpo.Prelude.Float.{Float}
use trpo.Prelude.Int.{pos}
use trpo.Prelude.Failure.{ok}
use trpo.Env.Space.{
  Converter, box, discrete, multi_binary, tuple, Converters, nil, cons, Action, vector, index,
  values, Actions, end, then_one, vec_len, vec_lens, first_set, to_gym, to_gyms, ObsApi, count,
  from_gym, from_gyms,
}
use trpo.Env.Fits.{IsBinary, IsBinary-all_binary}

-- What the code uses of the two constants.
pub record TellsZeroOne {F : Type 0} (fl : Float F) : Type 0 where
  pub zero_same : fl.differs (fl.of_ℕ 0) (fl.of_ℕ 0) ≡ false
  pub one_other : fl.differs (fl.of_ℕ 1) (fl.of_ℕ 0) ≡ true

module _ {F O : Type 0} ⦃fl : Float F⦄ (api : ObsApi F O) (encode : Action F → O) where
  abbrev pub encode_all : Actions F → List O
  encode_all end = []
  encode_all (then_one a acts) = encode a ∷ encode_all acts

  -- An observation is decoded to the value that was encoded.
  pub record IsEcho : Type 0 where
    pub of_vector : (xs : List F) → api.flatten (encode (vector xs)) ≡ ok xs
    pub of_binary : (xs : List F) → api.unmarshal_vector (encode (vector xs)) ≡ ok xs
    pub of_index : (i : ℕ) → api.unmarshal_int (encode (index i)) ≡ ok (pos i)
    pub of_values :
        (acts : Actions F) → api.unpack_tuple (encode (values acts)) ≡ ok (encode_all acts)

  -- The vectors of a space with just a single 1 where one component is to be chosen.
  unfoldable mutual
    pub Canonical : Converter → List F → Type 0
    Canonical (box n) xs = length xs ≡ n
    Canonical (discrete n) xs =
        (i : ℕ) × (i < n) × (xs ≡ set (replicate n (fl.of_ℕ 0)) i (fl.of_ℕ 1))
    Canonical (multi_binary n) xs = (length xs ≡ n) × All IsBinary xs
    Canonical (tuple cs) xs = CanonicalAll cs xs

    pub CanonicalAll : Converters → List F → Type 0
    CanonicalAll nil xs = xs ≡ []
    CanonicalAll (cons c cs) xs =
        (own : List F) × (rest : List F) × (xs ≡ own ++ rest)
        × Canonical c own
        × CanonicalAll cs rest

  mutual
    unfolding Canonical vec_len

    length-Canonical : (c : Converter) (xs : List F) → Canonical c xs → length xs ≡ vec_len c
    length-Canonical (box n) xs h = h
    length-Canonical (discrete n) xs (i, lt, e) = omega (
      arith,
      ap length e,
      length-set (replicate n (fl.of_ℕ 0)) i (fl.of_ℕ 1),
      length-replicate n (fl.of_ℕ 0),
    )
    length-Canonical (multi_binary n) xs h = h.0
    length-Canonical (tuple cs) xs h = length-CanonicalAll cs xs h

    length-CanonicalAll :
        (cs : Converters) (xs : List F) → CanonicalAll cs xs → length xs ≡ vec_lens cs
    length-CanonicalAll nil xs h = ap length h
    length-CanonicalAll (cons c cs) xs (own, rest, e, h, hs) = omega (
      arith,
      ap length e,
      length-append own rest,
      length-Canonical c own h,
      length-CanonicalAll cs rest hs,
    )

  first_set-set :
      (laws : TellsZeroOne fl) (n i k : ℕ)
      → i < n
      → first_set k (set (replicate n (fl.of_ℕ 0)) i (fl.of_ℕ 1)) ≡ ok (index (k + i))
  first_set-set laws zero i k h = absurd (omega arith)
  first_set-set laws (suc n) zero k h = ground (arith, laws.one_other)
  first_set-set laws (suc n) (suc i) k h =
      ground (arith, laws.zero_same, first_set-set laws n i (k + 1))

  -- The action and the vector that comes back.
  abbrev Returns : Converter → List F → Type 0
  Returns c xs = (a : Action F) × (to_gym c xs ≡ ok a) × (from_gym api c (encode a) ≡ ok xs)

  ReturnsAll : Converters → List F → Type 0
  ReturnsAll cs xs =
      (acts : Actions F) × (to_gyms cs xs ≡ ok acts)
      × (from_gyms api cs (encode_all acts) ≡ ok xs)
      × (length (encode_all acts) ≡ count api cs)

  module _ (laws : TellsZeroOne fl) (echo : IsEcho) where
    mutual
      unfolding to_gym from_gym Canonical vec_len ReturnsAll

      returns : (c : Converter) (xs : List F) → Canonical c xs → Returns c xs
      returns (box n) xs h = (vector xs, rw (eq→== _ _ h), echo.of_vector xs)
      returns (discrete n) xs (i, lt, e) = (
        index i,
        rw (eq→== _ _ (length-Canonical (discrete n) xs (i, lt, e)), e)
            (first_set-set laws n i 0 lt ∙ ap (λ k. ok (index k)) (omega arith)),
        rw (echo.of_index i, lt→ltb i n lt) (ap ok (sym e)),
      )
      returns (multi_binary n) xs (h, hs) =
          (vector xs, rw (eq→== _ _ h, IsBinary-all_binary xs hs), echo.of_binary xs)
      returns (tuple cs) xs h =
          let (acts, e, f, k) = returns_all cs xs h in
          (
            values acts,
            rw (eq→== _ _ (length-CanonicalAll cs xs h), e),
            rw (echo.of_values acts, eq→== _ _ k) f,
          )

      returns_all : (cs : Converters) (xs : List F) → CanonicalAll cs xs → ReturnsAll cs xs
      returns_all nil xs h = (end, refl, ap ok (sym h), refl)
      returns_all (cons c cs) xs (own, rest, e, h, hs) =
          let (a, f, g) = returns c own h in
          let (acts, f', g', k) = returns_all cs rest hs in
          let n = length-Canonical c own h in
          (
            then_one a acts,
            rw (
              e,
              ← n,
              le→ltb (length (own ++ rest)) (length own) (omega (arith, length-append own rest)),
              take-append_length own rest,
              drop-append_length own rest,
              f,
              f',
            ),
            rw (g, g') (ap ok (sym e)),
            ap suc k,
          )

    -- A vector of a space, with a single 1 where one component is to be chosen, is turned into an action,
    -- and the observation that encodes this action is turned back into the same vector. It is assumed
    -- that 0 and 1 compare as numbers do, and that messages decode to what was encoded.
    pub from_gym-to_gym :
        (c : Converter) (xs : List F)
        → Canonical c xs
        → (a : Action F) × (to_gym c xs ≡ ok a) × (from_gym api c (encode a) ≡ ok xs)
    from_gym-to_gym c xs h = returns c xs h
