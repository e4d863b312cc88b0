-- ===== src/Env/Fits.antt =====
-- `ToGym` (env.go): which vectors it accepts.
use trpo.Prelude.{
  ℕ, zero, suc, ◌+◌, ◌≤◌, ◌≡◌, ◌⊎◌, get_elem?, some, All, sym, ◌∙◌, refl, ap, ◌↔◌, List, [], ◌∷◌,
  ◌++◌, Bool, true, false, ◌&&◌, arith, length, take, drop, take-append-drop, length-drop,
  length-append, ◌==◌, if◌then◌else◌, Bool-cases, inl, inr, ==→eq, le→ltb, take-append_length,
  drop-append_length,
}
use trpo.Prelude.Float.{Float}
use trpo.Prelude.Failure.{Result, ok, err, panic, ◌>>=◌, is_ok, is_panic, Answers}
use trpo.Env.Space.{
  Converter, box, discrete, multi_binary, tuple, Converters, nil, cons, Action, Actions, values,
  then_one, vec_len, vec_lens, first_set, all_binary, to_gym, to_gyms, check_len,
}

module _ {F : Type 0} ⦃fl : Float F⦄ where
  open fl use {of_ℕ, differs}

  abbrev pub any_set : List F → Bool
  any_set [] = false
  any_set (x ∷ xs) = if differs x (of_ℕ 0) then true else any_set xs

  -- The documented vectors of a space: the length of the space, a component that is not 0 where one is
  -- to be chosen, zeros and ones where the space is binary, and one part for each element of a tuple.
  unfoldable mutual
    pub fits : Converter → List F → Bool
    fits (box n) xs = length xs == n
    fits (discrete n) xs = (length xs == n) && any_set xs
    fits (multi_binary n) xs = (length xs == n) && all_binary xs
    fits (tuple cs) xs = (length xs == vec_lens cs) && fit_all cs xs

    pub fit_all : Converters → List F → Bool
    fit_all nil xs = true
    fit_all (cons c cs) xs = fits c (take (vec_len c) xs) && fit_all cs (drop (vec_len c) xs)

  first_set-any_set :
      (i : ℕ) (xs : List F)
      → (is_ok (first_set i xs) ≡ any_set xs) × (is_panic (first_set i xs) ≡ false)
  first_set-any_set i [] = (refl, refl)
  first_set-any_set i (x ∷ xs) = ground (arith, first_set-any_set (i + 1) xs)

  tuple_case :
      (cs : Converters) (xs : List F) (r : Result (Actions F))
      → (vec_lens cs ≤ length xs → Answers r (fit_all cs xs))
      → Answers
          (check_len (vec_lens cs) xs (r >>= λ acts. ok (values acts)))
          ((length xs == vec_lens cs) && fit_all cs xs)
  tuple_case cs xs r h = elim (Bool-cases (length xs == vec_lens cs)) [
    | inl e ↦ rw e (sequel r (h (omega (arith, ==→eq (length xs) (vec_lens cs) e))))
    | inr e ↦ rw e (refl, refl)
  ]
    where
      sequel :
          (r : Result (Actions F))
          → Answers r (fit_all cs xs)
          → Answers (r >>= λ acts. ok (values acts)) (fit_all cs xs)
      sequel panic a = a
      sequel (err e) a = a
      sequel (ok acts) a = a

  cons_case :
      (c : Converter) (cs : Converters) (xs : List F) (r : Result (Action F))
      (rest : Result (Actions F))
      → Answers r (fits c (take (vec_len c) xs))
      → Answers rest (fit_all cs (drop (vec_len c) xs))
      → Answers
          (r >>= λ a. rest >>= λ acts. ok (then_one a acts))
          (fits c (take (vec_len c) xs) && fit_all cs (drop (vec_len c) xs))
  cons_case c cs xs r rest h k = ground arith

  mutual
    unfolding to_gym fits vec_len

    to_gym-fits : (c : Converter) (xs : List F) → Answers (to_gym c xs) (fits c xs)
    to_gym-fits (box n) xs = ground arith
    to_gym-fits (discrete n) xs = ground (arith, first_set-any_set 0 xs)
    to_gym-fits (multi_binary n) xs = ground arith
    to_gym-fits (tuple cs) xs = tuple_case cs xs (to_gyms cs xs) (to_gyms-fit_all cs xs)

    to_gyms-fit_all :
        (cs : Converters) (xs : List F)
        → vec_lens cs ≤ length xs
        → Answers (to_gyms cs xs) (fit_all cs xs)
    to_gyms-fit_all nil xs h = (refl, refl)
    to_gyms-fit_all (cons c cs) xs h = rw (le→ltb (length xs) (vec_len c) (omega arith)) (
        cons_case c cs xs (to_gym c (take (vec_len c) xs)) (to_gyms cs (drop (vec_len c) xs))
          (to_gym-fits c (take (vec_len c) xs))
          (to_gyms-fit_all cs (drop (vec_len c) xs) (omega (arith, length-drop (vec_len c) xs))))

  -- A component that is not 0.
  abbrev pub HasSet : List F → Type 0
  HasSet xs = (i : ℕ) × (x : F) × (get_elem? xs i ≡ some x) × (differs x (of_ℕ 0) ≡ true)

  abbrev pub IsBinary : F → Type 0
  IsBinary x = (differs x (of_ℕ 0) ≡ false) ⊎ (differs x (of_ℕ 1) ≡ false)

  -- The vectors of a space as the interface describes them: of its length; with a component that is
  -- not 0 where one is to be chosen; of zeros and ones where the space is binary; and, for a tuple, a
  -- vector of each element in turn.
  unfoldable mutual
    pub Fits : Converter → List F → Type 0
    Fits (box n) xs = length xs ≡ n
    Fits (discrete n) xs = (length xs ≡ n) × HasSet xs
    Fits (multi_binary n) xs = (length xs ≡ n) × All IsBinary xs
    Fits (tuple cs) xs = FitAll cs xs

    pub FitAll : Converters → List F → Type 0
    FitAll nil xs = xs ≡ []
    FitAll (cons c cs) xs =
        (own : List F) × (rest : List F) × (xs ≡ own ++ rest) × Fits c own × FitAll cs rest

  any_set-HasSet : (xs : List F) → any_set xs ≡ true → HasSet xs
  any_set-HasSet [] h = cc
  any_set-HasSet (x ∷ xs) h = elim (Bool-cases (differs x (of_ℕ 0))) [
    | inl e ↦ (0, x, refl, e)
    | inr e ↦ let (i, y, f, d) = any_set-HasSet xs (ground arith) in (suc i, y, f, d)
  ]

  HasSet-any_set :
      (xs : List F) (i : ℕ) (x : F)
      → get_elem? xs i ≡ some x
      → differs x (of_ℕ 0) ≡ true
      → any_set xs ≡ true
  HasSet-any_set [] i x e d = cc
  HasSet-any_set (y ∷ xs) zero x e d = ground arith
  HasSet-any_set (y ∷ xs) (suc i) x e d = ground (arith, HasSet-any_set xs i x e d)

  all_binary-IsBinary : (xs : List F) → all_binary xs ≡ true → All IsBinary xs
  all_binary-IsBinary [] h = tt
  all_binary-IsBinary (x ∷ xs) h = (ground arith, all_binary-IsBinary xs (ground arith))

  pub IsBinary-all_binary : (xs : List F) → All IsBinary xs → all_binary xs ≡ true
  IsBinary-all_binary [] h = refl
  IsBinary-all_binary (x ∷ xs) (h, hs) = ground (arith, IsBinary-all_binary xs hs)

  mutual
    unfolding Fits fits vec_len

    fits-Fits : (c : Converter) (xs : List F) → fits c xs ≡ true → Fits c xs
    fits-Fits (box n) xs h = ground arith
    fits-Fits (discrete n) xs h = (ground arith, any_set-HasSet xs (ground arith))
    fits-Fits (multi_binary n) xs h = (ground arith, all_binary-IsBinary xs (ground arith))
    fits-Fits (tuple cs) xs h = fit_all-FitAll cs xs (ground arith) (ground arith)

    fit_all-FitAll :
        (cs : Converters) (xs : List F)
        → length xs ≡ vec_lens cs
        → fit_all cs xs ≡ true
        → FitAll cs xs
    fit_all-FitAll nil [] n h = refl
    fit_all-FitAll nil (x ∷ xs) n h = absurd (omega arith)
    fit_all-FitAll (cons c cs) xs n h =
        let k = vec_len c in
        (
          take k xs,
          drop k xs,
          sym (take-append-drop k xs),
          fits-Fits c (take k xs) (ground arith),
          fit_all-FitAll cs (drop k xs) (omega (arith, length-drop k xs)) (ground arith),
        )

  mutual
    unfolding Fits vec_len

    length-Fits : (c : Converter) (xs : List F) → Fits c xs → length xs ≡ vec_len c
    length-Fits (box n) xs h = h
    length-Fits (discrete n) xs h = h.0
    length-Fits (multi_binary n) xs h = h.0
    length-Fits (tuple cs) xs h = length-FitAll cs xs h

    length-FitAll : (cs : Converters) (xs : List F) → FitAll cs xs → length xs ≡ vec_lens cs
    length-FitAll nil xs h = ap length h
    length-FitAll (cons c cs) xs (own, rest, e, h, hs) =
        omega (
          arith,
          ap length e,
          length-append own rest,
          length-Fits c own h,
          length-FitAll cs rest hs,
        )

  mutual
    unfolding Fits fits vec_len

    Fits-fits : (c : Converter) (xs : List F) → Fits c xs → fits c xs ≡ true
    Fits-fits (box n) xs h = ground arith
    Fits-fits (discrete n) xs (h, (i, x, e, d)) = ground (arith, HasSet-any_set xs i x e d)
    Fits-fits (multi_binary n) xs (h, hs) = ground (arith, IsBinary-all_binary xs hs)
    Fits-fits (tuple cs) xs h = ground (arith, length-FitAll cs xs h, FitAll-fit_all cs xs h)

    FitAll-fit_all : (cs : Converters) (xs : List F) → FitAll cs xs → fit_all cs xs ≡ true
    FitAll-fit_all nil xs h = refl
    FitAll-fit_all (cons c cs) xs (own, rest, e, h, hs) =
        rw (e, ← length-Fits c own h, take-append_length own rest, drop-append_length own rest)
          (ground (arith, Fits-fits c own h, FitAll-fit_all cs rest hs))

  -- For every converter and vector `ToGym` returns without a fault, so no slice is out of range. It
  -- succeeds exactly on the vectors of the space.
  pub to_gym-Fits :
      (c : Converter) (xs : List F)
      → ((is_ok (to_gym c xs) ≡ true) ↔ Fits c xs) × (is_panic (to_gym c xs) ≡ false)
  to_gym-Fits c xs =
      let (same, safe) = to_gym-fits c xs in
      ((λ h. fits-Fits c xs (sym same ∙ h), λ h. same ∙ Fits-fits c xs h), safe)
