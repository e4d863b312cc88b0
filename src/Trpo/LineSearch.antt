-- ===== src/Trpo/LineSearch.antt =====
-- The line search of `Run` (anypg/trpo.go).
use trpo.Prelude.{
  ℕ, zero, suc, ◌+◌, ◌≤◌, ◌≡◌, ◌⊎◌, inl, inr, refl, ap, min, List, [], ◌∷◌, map, true, false,
  length, take, All, Bool-cases, arith,
}
use trpo.Prelude.Float.{Float}
use trpo.NaturalPg.{VectorApi, scale_grad}
use trpo.Trpo.{Trpo, line_search_decay_of, acceptable, line_search}

module _ {F V : Type 0} ⦃fl : Float F⦄ (api : VectorApi F V) (t : Trpo F)
    (mean : List V → F × F) where
  -- The step after `k` decays, and the first `k` steps.
  pub decayed : ℕ → List V → List V
  decayed zero grad = grad
  decayed (suc k) grad = decayed k (scale_grad api (line_search_decay_of t) grad)

  pub tried : ℕ → List V → List (List V)
  tried zero grad = []
  tried (suc k) grad = grad ∷ tried k (scale_grad api (line_search_decay_of t) grad)

  -- The step with `decays` decays was found in at most `n` rounds.
  pub record Found (n : ℕ) (grad : List V) (out : List V × List (F × F)) : Type 0 where
    pub decays : ℕ
    pub within : decays ≤ n
    pub step : out.0 ≡ decayed decays grad
    pub rounds : length out.1 ≡ min (decays + 1) n
    pub logged : out.1 ≡ map mean (tried (length out.1) grad)
    pub refused : All (λ stats. acceptable api t stats ≡ false) (take decays out.1)
    pub ended : (acceptable api t (mean out.0) ≡ true) ⊎ (decays ≡ n)

  -- The line search ends within its limit of rounds. The step that it returns is the one that it began with,
  -- decayed some number of times: each step with fewer decays was found not acceptable, and the returned one
  -- is acceptable, or the limit is reached. Its logs are the means of the steps that it tried, in order.
  pub line_search-Found : (n : ℕ) (grad : List V) → Found n grad (line_search api t mean n grad)
  unfolding line_search decayed tried
  line_search-Found zero grad = record {
    decays = 0;
    within = omega arith;
    step = refl;
    rounds = omega arith;
    logged = refl;
    refused = tt;
    ended = inr refl;
  }
  line_search-Found (suc n) grad = elim (Bool-cases (acceptable api t (mean grad))) [
    | inl good ↦
        rw (good, line_search)
          (record {
            decays = 0;
            within = omega arith;
            step = refl;
            rounds = omega arith;
            logged = refl;
            refused = tt;
            ended = inl good;
          })
    | inr bad ↦
        let h = line_search-Found n (scale_grad api (line_search_decay_of t) grad) in
        rw (bad, line_search)
          (record {
            decays = suc h.decays;
            within = omega (arith, h.within);
            step = h.step;
            rounds = omega (arith, h.rounds);
            logged = ap (◌∷◌ (mean grad)) h.logged;
            refused = (bad, h.refused);
            ended = elim h.ended [ inl good ↦ inl good | inr full ↦ inr (ap suc full) ];
          })
  ]
