-- ===== src/ParamServer/Copying.antt =====
-- `LocalCopy` (anya3c/param_server.go): the parameters of the local agent.
use trpo.Prelude.{
  ℕ, suc, ◌≤◌, ◌≡◌, ◌⊎◌, refl, ap, subst, List, [], ◌∷◌, false, some, length, arith, ◌==◌,
  Bool-cases, inl, inr, ==→eq, eq→==, All,
}
use trpo.Prelude.Failure.{ok, ◌>>=◌}
use trpo.ParamServer.LocalCopy.{
  Agent, BlockApi, all_agent_parameters, copy_agent, global_to_local, lookup, find_locals,
  local_copy,
}

-- `g` and `l` stand at the same place of two lists.
abbrev Linked : List ℕ → List ℕ → ℕ → ℕ → Type 0
Linked [] locals g l = ⊥
Linked (x ∷ globals) [] g l = ⊥
Linked (x ∷ globals) (y ∷ locals) g l = ((x ≡ g) × (y ≡ l)) ⊎ Linked globals locals g l

abbrev pub Occurs : ℕ → List ℕ → Type 0
Occurs g [] = ⊥
Occurs g (x ∷ xs) = (x ≡ g) ⊎ Occurs g xs

-- Each of `params` has, at its place, a counterpart among `found`.
abbrev pub Matches : List ℕ → List ℕ → List ℕ → List ℕ → Type 0
Matches globals locals [] [] = Unit
Matches globals locals [] (l ∷ found) = ⊥
Matches globals locals (g ∷ params) [] = ⊥
Matches globals locals (g ∷ params) (l ∷ found) =
    Linked globals locals g l × Matches globals locals params found

pub length-Matches :
    (globals locals params found : List ℕ)
    → Matches globals locals params found
    → length found ≡ length params
length-Matches globals locals [] [] m = refl
length-Matches globals locals [] (l ∷ found) m = absurd m
length-Matches globals locals (g ∷ params) [] m = absurd m
length-Matches globals locals (g ∷ params) (l ∷ found) (h, m) =
    ap suc (length-Matches globals locals params found m)

IsKey : List (ℕ × ℕ) → ℕ → Type 0
IsKey entries g = (l : ℕ) × (lookup entries g ≡ some l)

IsKey-cons : (e : ℕ × ℕ) (entries : List (ℕ × ℕ)) (g : ℕ) → IsKey entries g → IsKey (e ∷ entries) g
unfolding IsKey lookup
IsKey-cons (k, v) entries g (l, found) = elim (Bool-cases (k == g)) [
  | inl same ↦ (v, rw same refl)
  | inr other ↦ (l, rw other found)
]

IsKey-same : (g l : ℕ) (entries : List (ℕ × ℕ)) → IsKey ((g, l) ∷ entries) g
unfolding IsKey lookup
IsKey-same g l entries = (l, rw (eq→== g g refl) refl)

module _ (P : ℕ → ℕ → Type 0) where
  -- The map is built; what holds of the pairs that went in holds of the entries, and every parameter of the
  -- agent is a key, with those that were keys before.
  global_to_local-All :
      (entries : List (ℕ × ℕ)) (globals locals : List ℕ)
      → length globals ≤ length locals
      → All (λ e. P e.0 e.1) entries
      → ((g l : ℕ) → Linked globals locals g l → P g l)
      → (m : List (ℕ × ℕ)) × (global_to_local entries globals locals ≡ ok m)
        × All (λ e. P e.0 e.1) m
        × ((g : ℕ) → IsKey entries g → IsKey m g)
        × ((g : ℕ) → Occurs g globals → IsKey m g)
  unfolding global_to_local
  global_to_local-All entries [] locals h a link = (entries, refl, a, λ g k. k, λ g o. absurd o)
  global_to_local-All entries (x ∷ globals) [] h a link = absurd (omega arith)
  global_to_local-All entries (x ∷ globals) (y ∷ locals) h a link =
      let (m, built, b, kept, all_in) =
        global_to_local-All ((x, y) ∷ entries) globals locals (omega arith)
          (link x y (inl (refl, refl)), a) (λ g l k. link g l (inr k)) in
      (
        m,
        built,
        b,
        λ g k. kept g (IsKey-cons (x, y) entries g k),
        λ g o. elim o [
          | inl same ↦ subst (IsKey m) same (kept x (IsKey-same x y entries))
          | inr later ↦ all_in g later
        ],
      )

  lookup-All :
      (entries : List (ℕ × ℕ)) (g l : ℕ)
      → All (λ e. P e.0 e.1) entries
      → lookup entries g ≡ some l
      → P g l
  unfolding lookup
  lookup-All [] g l a e = cc
  lookup-All ((k, v) ∷ entries) g l (p, a) e = elim (Bool-cases (k == g)) [
    | inl same ↦
        let k_is : k ≡ g = ==→eq k g same in
        let v_is : v ≡ l = ground (arith, e, same) in subst (P g) v_is (subst (λ k. P k v) k_is p)
    | inr other ↦ lookup-All entries g l a (ground (arith, e, other))
  ]

find_locals-Matches :
    (globals locals : List ℕ) (entries : List (ℕ × ℕ)) (params : List ℕ)
    → All (λ e. Linked globals locals e.0 e.1) entries
    → All (IsKey entries) params
    → (found : List ℕ) × (find_locals entries params ≡ ok found)
      × Matches globals locals params found
unfolding find_locals IsKey
find_locals-Matches globals locals entries [] a keys = ([], refl, tt)
find_locals-Matches globals locals entries (g ∷ params) a ((l, there), keys) =
    let (found, rest, m) = find_locals-Matches globals locals entries params a keys in
    (
      l ∷ found,
      rw (there, rest, find_locals) refl,
      (lookup-All (Linked globals locals) entries g l a there, m),
    )

All-keys :
    (m : List (ℕ × ℕ)) (globals params : List ℕ)
    → ((g : ℕ) → Occurs g globals → IsKey m g)
    → All (λ g. Occurs g globals) params
    → All (IsKey m) params
All-keys m globals [] keys a = tt
All-keys m globals (g ∷ params) keys (o, a) = (keys g o, All-keys m globals params keys a)

-- If the copy of an agent succeeds and has as many parameters as the agent, and each parameter of an open
-- server is one of the agent, then `LocalCopy` succeeds: it returns the copy with as many parameters as the
-- server has, and each of them stands among the parameters of the copy where the server's parameter at its
-- place stands among those of the agent.
pub local_copy-Matches :
    {B : Type 0} (api : BlockApi B) (agent copied : Agent B) (params : List ℕ)
    → copy_agent api agent ≡ ok copied
    → length (all_agent_parameters api agent) ≤ length (all_agent_parameters api copied)
    → All (λ g. Occurs g (all_agent_parameters api agent)) params
    → (found : List ℕ) × (local_copy api false agent params
        ≡ ok (record { agent = copied; params = found }))
      × (length found ≡ length params)
      × Matches (all_agent_parameters api agent) (all_agent_parameters api copied) params found
unfolding local_copy
local_copy-Matches api agent copied params copies sizes known =
    let globals = all_agent_parameters api agent in
    let locals = all_agent_parameters api copied in
    let (m, built, a, kept, keys) =
      global_to_local-All (Linked globals locals) [] globals locals sizes tt (λ g l k. k) in
    let (found, there, matches) =
      find_locals-Matches globals locals m params a (All-keys m globals params keys known) in
    (
      found,
      rw (copies, ◌>>=◌, built, there) refl,
      length-Matches globals locals params found matches,
      matches,
    )
