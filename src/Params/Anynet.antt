-- ===== src/Params/Anynet.antt =====
-- `AnynetParams` (anyes/params.go): the vectors of some variables as parameters. The serializer, the
-- transformer of gradients with its states `T` and serialized states `B`, and md5 are parameters.
use trpo.Prelude.{
  ◌⊎◌, inl, inr, ℕ, zero, suc, ◌+◌, ◌*◌, ◌^◌, List, [], ◌∷◌, map, Bool, false, Option, none, some,
  length, take, drop, leb, ◌==◌, if◌then◌else◌,
}
use trpo.Prelude.Float.{Float}
use trpo.Prelude.Failure.{Error, text, ctx, Result, ok, ◌>>=◌, add_ctx}

-- The vector of a variable, and the number of its creator.
pub record Vec (F : Type 0) : Type 0 where
  pub creator : ℕ
  pub comps : List F

-- `marshals` tells whether the transformer is a `TransformMarshaler`.
pub record AnynetParams (F T : Type 0) : Type 0 where
  pub params : List (Vec F)
  pub transformer : Option T
  pub marshals : Bool
  pub step_size : F

-- `SerializeAny` of the vectors and maybe of the data of a transformer, and `DeserializeAny`
pub record Serializer (F T B D : Type 0) : Type 0 where
  pub serialize : List (Vec F) → Option B → Result D
  pub deserialize : D → Bool → Error ⊎ (List (Vec F) × Option B)
  pub marshal : T → Result B
  pub unmarshal : T → B → Option Error × T

module _ {F : Type 0} where
  -- The loop of `Len`.
  abbrev pub len_of : List (Vec F) → ℕ
  len_of [] = 0
  len_of (v ∷ vs) = length v.comps + len_of vs

  -- `SplitMutation`; `none` is the panic of a slice that is too short, or of what is left over.
  unfoldable pub split_mutation : List (Vec F) → List F → Option (List (List F))
  split_mutation [] [] = some []
  split_mutation [] (x ∷ m) = none
  split_mutation (v ∷ vs) m =
      let rest = split_mutation vs (drop (length v.comps) m) in
      if leb (length v.comps) (length m)
      then elim rest [ none ↦ none | some parts ↦ some (take (length v.comps) m ∷ parts) ]
      else none

  -- The loop of `SetData`, which sets each vector up to the first that does not fit.
  unfoldable pub set_vecs : List (Vec F) → List (Vec F) → Option Error × List (Vec F)
  set_vecs [] dests = (none, [])
  set_vecs (v ∷ vs) [] = (none, v ∷ vs)
  set_vecs (v ∷ vs) (d ∷ dests) =
      let (problem, vs') = set_vecs vs dests in
      if length d.comps == length v.comps
      then (if d.creator == v.creator
          then (problem, record v { comps = d.comps } ∷ vs')
          else (some (text "creator mismatch"), v ∷ vs))
      else (some (text "length mismatch"), v ∷ vs)

module _ {F : Type 0} ⦃fl : Float F⦄ where
  abbrev pub add_comps : List F → List F → List F
  add_comps [] ys = []
  add_comps (x ∷ xs) [] = x ∷ xs
  add_comps (x ∷ xs) (y ∷ ys) = fl.plus x y ∷ add_comps xs ys

  -- `grad.AddToVars()`
  abbrev pub add_to_vars : List (Vec F) → List (List F) → List (Vec F)
  add_to_vars [] grad = []
  add_to_vars (v ∷ vs) [] = v ∷ vs
  add_to_vars (v ∷ vs) (g ∷ grad) = record v { comps = add_comps v.comps g } ∷ add_to_vars vs grad

-- `Checksum` of the bytes of md5: the first eight, the first one lowest. Their bits do not overlap, so
-- that `|=` adds.
abbrev pub low_bytes : ℕ → List ℕ → ℕ
low_bytes zero bytes = 0
low_bytes (suc n) [] = 0
low_bytes (suc n) (b ∷ bytes) = b + 2 ^ 8 * low_bytes n bytes

-- The deferred `essentials.AddCtxTo` of `SetData`
abbrev pub deserialize_ctx : Option Error → Option Error
deserialize_ctx none = none
deserialize_ctx (some e) = some (ctx "deserialize AnynetParams" e)

-- `a.Transformer.Transform(grad)` if there is a transformer
abbrev pub transformed :
    {F T : Type 0}
    → (T → List (List F) → List (List F) × T)
    → Option T
    → List (List F)
    → List (List F) × Option T
transformed transform none grad = (grad, none)
transformed transform (some t) grad = let (grad', t') = transform t grad in (grad', some t')

module _ {F T : Type 0} ⦃fl : Float F⦄ where
  -- `SplitMutation` followed by `AddToVars`, as in `AnynetSlave.Run`
  unfoldable pub anynet_mutate : AnynetParams F T → List F → Option (AnynetParams F T)
  unfolding split_mutation
  anynet_mutate a m = elim (split_mutation a.params m) [
    | none ↦ none
    | some grad ↦ some (record a { params = add_to_vars a.params grad })
  ]

  -- `Update`
  unfoldable pub anynet_update :
      (T → List (List F) → List (List F) × T)
      → AnynetParams F T
      → List F
      → Option (AnynetParams F T)
  unfolding split_mutation
  anynet_update transform a m = elim (split_mutation a.params m) [
    | none ↦ none
    | some split ↦
        let (grad, transformer) = transformed transform a.transformer split in
        let scaled =
          if fl.differs a.step_size (fl.of_ℕ 0)
          then map (map (λ x. fl.times x a.step_size)) grad
          else grad in
        some (record a { params = add_to_vars a.params scaled; transformer = transformer })
  ]

module _ {F T B D : Type 0} ⦃fl : Float F⦄ (api : Serializer F T B D) where
  open api use {serialize, deserialize, marshal, unmarshal}

  -- `Data`
  unfoldable pub anynet_data : AnynetParams F T → Result D
  anynet_data a = add_ctx "serialize AnynetParams" (elim a.transformer [
    | none ↦ serialize a.params none
    | some t ↦
        if a.marshals
        then (marshal t >>= λ bytes. serialize a.params (some bytes))
        else serialize a.params none
  ])

  -- The end of `SetData` for a transformer
  abbrev pub set_transformer : AnynetParams F T → Option B → Option Error × AnynetParams F T
  set_transformer a none = (none, a)
  set_transformer a (some bytes) = elim a.transformer [
    | none ↦ (none, a)
    | some t ↦
        let (problem, t') = unmarshal t bytes in (problem, record a { transformer = some t' })
  ]

  -- Whether `SetData` expects the data of a transformer.
  abbrev pub has_marshaler : AnynetParams F T → Bool
  has_marshaler a = elim a.transformer [ none ↦ false | some t ↦ a.marshals ]

  -- `SetData` without the context of its errors
  unfoldable pub set_data_of : D → AnynetParams F T → Option Error × AnynetParams F T
  unfolding set_vecs
  set_data_of d a = elim (deserialize d (has_marshaler a)) [
    | inl e ↦ (some e, a)
    | inr (dests, bytes) ↦
        let (problem, params) = set_vecs a.params dests in
        let a' = record a { params = params } in
        elim problem [ some e ↦ (some e, a') | none ↦ set_transformer a' bytes ]
  ]

  -- `SetData`
  unfoldable pub anynet_set_data : D → AnynetParams F T → Option Error × AnynetParams F T
  unfolding set_data_of
  anynet_set_data d a = let (problem, a') = set_data_of d a in (deserialize_ctx problem, a')

  -- `Checksum`
  unfoldable pub anynet_checksum : (D → List ℕ) → AnynetParams F T → Result ℕ
  unfolding anynet_data
  anynet_checksum md5 a =
      add_ctx "checksum AnynetParams" (anynet_data a >>= λ d. ok (low_bytes 8 (md5 d)))
