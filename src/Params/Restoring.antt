-- ===== src/Params/Restoring.antt =====
-- `AnynetParams` (anyes/params.go): mutations, and parameters that are set again after them.
use trpo.ParamServer.Moves.{some_same}
use trpo.Prelude.{
  String, ℕ, suc, ◌≤◌, ◌≡◌, inl, inr, refl, ap, ap₂, sym, ◌∙◌, List, [], ◌∷◌, ◌++◌, map, Bool, true,
  false, Option, none, some, length, length-drop, length-take, take-append-drop, take, drop, concat,
  leb, ◌==◌, eq→==, Option-cases, arith,
}
use trpo.Prelude.Float.{Float}
use trpo.Prelude.Failure.{Result, panic, err, ok, add_ctx, ◌>>=◌}
use trpo.Params.Anynet.{
  Vec, AnynetParams, Serializer, len_of, split_mutation, set_vecs, add_comps, add_to_vars,
  anynet_data, set_data_of, deserialize_ctx, anynet_set_data, anynet_mutate,
}

module _ {F : Type 0} where
  sizes : List (Vec F) → List ℕ
  sizes vs = map (λ v. length v.comps) vs

  -- A mutation vector as long as all variables is split into one vector for each variable, of its length,
  -- which are the mutation vector one after the other.
  pub split_mutation_lem :
      (vs : List (Vec F)) (m : List F)
      → length m ≡ len_of vs
      → (parts : List (List F)) × (split_mutation vs m ≡ some parts)
        × (concat parts ≡ m)
        × (map length parts ≡ map (λ v. length v.comps) vs)
  unfolding split_mutation
  split_mutation_lem [] [] h = ([], refl, refl, refl)
  split_mutation_lem [] (x ∷ m) h = absurd (omega arith)
  split_mutation_lem (v ∷ vs) m h =
      let n = length v.comps in
      let left = length-drop n m in
      let (parts, splits, same, each) = split_mutation_lem vs (drop n m) (omega (arith, left)) in
      let enough : n ≤ length m = omega arith in
      let long : leb n (length m) ≡ true = ground (arith, enough) in
      (
        take n m ∷ parts,
        rw (long, splits, split_mutation) refl,
        ap (λ r. take n m ++ r) same ∙ take-append-drop n m,
        ap₂ ◌∷◌ (length-take n m ∙ omega arith) each,
      )

  -- Vectors of the same creators and lengths.
  abbrev SameShape : List (Vec F) → List (Vec F) → Type 0
  SameShape [] [] = Unit
  SameShape [] (w ∷ ws) = ⊥
  SameShape (v ∷ vs) [] = ⊥
  SameShape (v ∷ vs) (w ∷ ws) =
      (length v.comps ≡ length w.comps) × (v.creator ≡ w.creator) × SameShape vs ws

  set_vecs-next :
      (v : Vec F) (vs : List (Vec F)) (w : Vec F) (ws : List (Vec F))
      → (length v.comps == length w.comps) ≡ true
      → (v.creator == w.creator) ≡ true
      → set_vecs (w ∷ ws) (v ∷ vs)
        ≡ ((set_vecs ws vs).0, record w { comps = v.comps } ∷ (set_vecs ws vs).1)
  unfolding set_vecs
  set_vecs-next v vs w ws len creator = ground (arith, len, creator)

  set_vecs-SameShape : (vs ws : List (Vec F)) → SameShape vs ws → set_vecs ws vs ≡ (none, vs)
  unfolding set_vecs
  set_vecs-SameShape [] [] h = refl
  set_vecs-SameShape [] (w ∷ ws) h = absurd h
  set_vecs-SameShape (v ∷ vs) [] h = absurd h
  set_vecs-SameShape (v ∷ vs) (w ∷ ws) (len, creator, h) =
      set_vecs-next v vs w ws (eq→== _ _ len) (eq→== _ _ creator)
      ∙ ap (λ r. (r.0, record w { comps = v.comps } ∷ r.1)) (set_vecs-SameShape vs ws h)
      ∙ ap (λ c. (none, record v { creator = c } ∷ vs)) (sym creator)

module _ {F : Type 0} ⦃fl : Float F⦄ where
  length-add_comps : (xs ys : List F) → length (add_comps xs ys) ≡ length xs
  length-add_comps [] ys = refl
  length-add_comps (x ∷ xs) [] = refl
  length-add_comps (x ∷ xs) (y ∷ ys) = ap suc (length-add_comps xs ys)

  SameShape-refl : (vs : List (Vec F)) → SameShape vs vs
  SameShape-refl [] = tt
  SameShape-refl (v ∷ vs) = (refl, refl, SameShape-refl vs)

  SameShape-add : (vs : List (Vec F)) (grad : List (List F)) → SameShape vs (add_to_vars vs grad)
  SameShape-add [] grad = tt
  SameShape-add (v ∷ vs) [] = (refl, refl, SameShape-refl vs)
  SameShape-add (v ∷ vs) (g ∷ grad) =
      (sym (length-add_comps v.comps g), refl, SameShape-add vs grad)

add_ctx-ok : {A : Type 0} (name : String) (r : Result A) (a : A) → add_ctx name r ≡ ok a → r ≡ ok a
add_ctx-ok name panic a e = cc
add_ctx-ok name (err x) a e = cc
add_ctx-ok name (ok b) a e = e

>>=-ok :
    {A B : Type 0} (r : Result A) (f : A → Result B) (b : B)
    → (r >>= f) ≡ ok b
    → (a : A) × (r ≡ ok a) × (f a ≡ ok b)
>>=-ok panic f b e = cc
>>=-ok (err x) f b e = cc
>>=-ok (ok a) f b e = (a, refl, e)

module _ {F T B D : Type 0} ⦃fl : Float F⦄ (api : Serializer F T B D) where
  -- What is deserialized is what was serialized, and a transformer takes back its own data.
  pub record Faithful : Type 0 where
    pub plain :
        (vs : List (Vec F)) (d : D)
        → api.serialize vs none ≡ ok d
        → api.deserialize d false ≡ inr (vs, none)
    pub with_data :
        (vs : List (Vec F)) (bytes : B) (d : D)
        → api.serialize vs (some bytes) ≡ ok d
        → api.deserialize d true ≡ inr (vs, some bytes)
    pub own_data :
        (t : T) (bytes : B) → api.marshal t ≡ ok bytes → api.unmarshal t bytes ≡ (none, t)

  module _ (laws : Faithful) where
    abbrev of_fields : List (Vec F) → Option T → Bool → F → AnynetParams F T
    of_fields vs o b x = record { params = vs; transformer = o; marshals = b; step_size = x }

    restored :
        (vs ws : List (Vec F)) (o : Option T) (b : Bool) (x : F) (d : D)
        → SameShape vs ws
        → anynet_data api (of_fields vs o b x) ≡ ok d
        → set_data_of api d (of_fields ws o b x) ≡ (none, of_fields vs o b x)
    unfolding anynet_data set_data_of
    restored vs ws none b x d h saved =
        let plain = laws.plain vs d (add_ctx-ok _ _ d saved) in
        let vecs = set_vecs-SameShape vs ws h in
        rw (plain, ap (λ r. r.0) vecs, ap (λ r. r.1) vecs, set_data_of) refl
    restored vs ws (some t) false x d h saved =
        let plain = laws.plain vs d (add_ctx-ok _ _ d saved) in
        let vecs = set_vecs-SameShape vs ws h in
        rw (plain, ap (λ r. r.0) vecs, ap (λ r. r.1) vecs, set_data_of) refl
    restored vs ws (some t) true x d h saved =
        let (bytes, own, saves) =
          >>=-ok (api.marshal t) (λ bytes. api.serialize vs (some bytes)) d
            (add_ctx-ok _ _ d saved) in
        let both = laws.with_data vs bytes d saves in
        let vecs = set_vecs-SameShape vs ws h in
        let mine = laws.own_data t bytes own in
        rw
          (
            both,
            ap (λ r. r.0) vecs,
            ap (λ r. r.1) vecs,
            ap (λ r. r.0) mine,
            ap (λ r. r.1) mine,
            set_data_of,
          )
          refl

    -- Data that was read from parameters is set again after a mutation.
    pub restores :
        (a mutated : AnynetParams F T) (m : List F) (d : D)
        → anynet_data api a ≡ ok d
        → anynet_mutate a m ≡ some mutated
        → anynet_set_data api d mutated ≡ (none, a)
    unfolding anynet_mutate anynet_set_data
    restores a mutated m d saved change = elim (Option-cases (split_mutation a.params m)) [
      | inl bad ↦ cc
      | inr (grad, splits) ↦
          let same : record a { params = add_to_vars a.params grad } ≡ mutated =
            some_same _ _ (rw (← change, splits, anynet_mutate) refl) in
          rw (← same) (
            ap (λ r. (deserialize_ctx r.0, r.1))
              (restored a.params (add_to_vars a.params grad) a.transformer a.marshals a.step_size d
                (SameShape-add a.params grad) saved))
    ]
