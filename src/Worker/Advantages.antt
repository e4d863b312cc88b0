-- ===== src/Worker/Advantages.antt =====
-- `Advantages` (anya3c/rollout.go): the loop that runs backwards, and returns with a bootstrapped end.
use trpo.Prelude.{
  ℕ, zero, suc, ◌≤◌, ◌≡◌, refl, ap₂, sym, ◌∙◌, List, [], ◌∷◌, ◌++◌, some, length, get_elem?,
  get_elem?-some, drop, drop-get_elem?, drop_all, set-replicate, replicate, arith, append-nil,
}
use trpo.Prelude.Float.{Float}
use trpo.Worker.{Blocks, Res, AgentApi, Worker, Rollout, advantages_loop, bootstrap, advantages}

module _ {F : Type 0} ⦃fl : Float F⦄ where
  -- The discounted sum of the rewards and of a last value after them.
  pub returned : F → F → List F → F
  returned discount last [] = last
  returned discount last (r ∷ rs) = fl.plus r (fl.times discount (returned discount last rs))

  returned-drop :
      (discount last : F) (rs : List F) (t : ℕ) (r : F)
      → get_elem? rs t ≡ some r
      → returned discount last (drop t rs)
        ≡ fl.plus r (fl.times discount (returned discount last (drop (suc t) rs)))
  unfolding returned
  returned-drop discount last rs t r e = rw (drop-get_elem? rs t r e) refl

  returned_all :
      (discount last : F) (rs : List F) → returned discount last (drop (length rs) rs) ≡ last
  unfolding returned
  returned_all discount last rs = rw (drop_all rs) refl

module _ {F P : Type 0} ⦃fl : Float F⦄ (sum : List F → F) where
  -- For each step, its return with the value of the critic taken off.
  unfoldable pub advantage_specs : F → F → List F → List (Blocks (Res F P)) → List F
  unfolding returned
  advantage_specs discount last [] outs = []
  advantage_specs discount last (r ∷ rs) [] = []
  advantage_specs discount last (r ∷ rs) (out ∷ outs) =
      fl.minus (returned discount last (r ∷ rs)) (sum out.critic.output)
      ∷ advantage_specs discount last rs outs

  specs-drop :
      (discount last : F) (rs : List F) (outs : List (Blocks (Res F P))) (t : ℕ) (r : F)
      (out : Blocks (Res F P))
      → get_elem? rs t ≡ some r
      → get_elem? outs t ≡ some out
      → advantage_specs discount last (drop t rs) (drop t outs)
        ≡ fl.minus (returned discount last (drop t rs)) (sum out.critic.output)
          ∷ advantage_specs discount last (drop (suc t) rs) (drop (suc t) outs)
  unfolding advantage_specs
  specs-drop discount last rs outs t r out e f =
      rw (drop-get_elem? rs t r e, drop-get_elem? outs t out f) refl

  advantages_loop-specs :
      (r : Rollout F P) (discount last : F) (t : ℕ)
      → t ≤ length r.rewards
      → length r.outs ≡ length r.rewards
      → advantages_loop sum r discount t (returned discount last (drop t r.rewards)) (
          replicate t (fl.of_ℕ 0)
          ++ advantage_specs discount last (drop t r.rewards) (drop t r.outs))
        ≡ some (advantage_specs discount last r.rewards r.outs)
  unfolding advantages_loop
  advantages_loop-specs r discount last zero h same = refl
  advantages_loop-specs r discount last (suc t) h same =
      let (reward, e) = get_elem?-some r.rewards t (omega arith) in
      let (out, f) = get_elem?-some r.outs t (omega arith) in
      rw
        (
          e,
          f,
          advantages_loop,
          ← returned-drop discount last r.rewards t reward e,
          set-replicate t (fl.of_ℕ 0)
              (fl.minus (returned discount last (drop t r.rewards)) (sum out.critic.output))
              (advantage_specs discount last (drop (suc t) r.rewards) (drop (suc t) r.outs)),
          ← specs-drop discount last r.rewards r.outs t reward out e f,
        )
        (advantages_loop-specs r discount last t (omega arith) same)

  specs-all :
      (discount last : F) (rs : List F) (outs : List (Blocks (Res F P)))
      → length outs ≡ length rs
      → replicate (length rs) (fl.of_ℕ 0)
          ++ advantage_specs discount last (drop (length rs) rs) (drop (length rs) outs)
        ≡ replicate (length rs) (fl.of_ℕ 0)
  unfolding advantage_specs
  specs-all discount last rs outs same = rw (drop_all rs) (append-nil _)

module _ {F S L P G : Type 0} ⦃fl : Float F⦄ (api : AgentApi F L P G) (sum : List F → F) where
  -- For a rollout with as many outputs as rewards, `Advantages` has no index out of range and returns for
  -- each step the discounted sum of the rewards from it on, with the critic's value of the worker's next
  -- observation after the last one unless the environment is done, less the critic's value of that step.
  pub advantages-specs :
      (r : Rollout F P) (w : Worker F S L P G) (discount : F)
      → length r.outs ≡ length r.rewards
      → advantages api sum r w discount
        ≡ some (advantage_specs sum discount (bootstrap api sum w) r.rewards r.outs)
  unfolding advantages returned
  advantages-specs r w discount same =
      let last = bootstrap api sum w in
      let start = advantages_loop-specs sum r discount last (length r.rewards) (omega arith) same in
      ap₂ (advantages_loop sum r discount (length r.rewards))
        (sym (returned_all discount last r.rewards))
        (sym (specs-all sum discount last r.rewards r.outs same))
      ∙ start
