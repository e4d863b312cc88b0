-- ===== src/Worker/Bptt/Backward.antt =====
-- The loop of anya3c/bptt.go, by recursion on the steps of a rollout.
use trpo.Prelude.{
  ℕ, zero, suc, ◌≤◌, ◌≡◌, refl, ap, sym, ◌∙◌, List, [], ◌∷◌, Bool, true, some, length, get_elem?,
  get_elem?-some, take, length-take, ◌++◌, arith,
}
use mathlib.Core.Path.{fun_ext}
use trpo.Prelude.Float.{Float}
use trpo.Prelude.Failure.{Result, ok, panic, err, ◌>>=◌}
use trpo.Worker.{Blocks, Res, AgentApi, Worker, Rollout, bootstrap}
use trpo.Worker.Advantages.{advantage_specs, advantages-specs}
use trpo.Worker.Bptt.{BpttApi, Back, back_step, back_loop, start_back, finish_back, run_bptt}

assoc :
    {A B C : Type 0} (m : Result A) (f : A → Result B) (g : B → Result C)
    → ((m >>= f) >>= g) ≡ (m >>= λ a. f a >>= g)
assoc panic f g = refl
assoc (err e) f g = refl
assoc (ok a) f g = refl

right_unit : {A : Type 0} (m : Result A) → (m >>= λ a. ok a) ≡ m
right_unit panic = refl
right_unit (err e) = refl
right_unit (ok a) = refl

take-suc :
    {A : Type 0} (xs : List A) (t : ℕ) (x : A)
    → get_elem? xs t ≡ some x
    → take (suc t) xs ≡ take t xs ++ x ∷ []
take-suc [] t x e = cc
take-suc (y ∷ xs) zero x e = ground arith
take-suc (y ∷ xs) (suc t) x e = ap (◌∷◌ y) (take-suc xs t x e)

length-take_short : {A : Type 0} (xs : List A) (t : ℕ) → t ≤ length xs → length (take t xs) ≡ t
length-take_short xs t h = omega (arith, length-take t xs)

take_all : {A : Type 0} (xs : List A) (n : ℕ) → length xs ≡ n → take n xs ≡ xs
take_all [] zero h = refl
take_all [] (suc n) h = refl
take_all (x ∷ xs) zero h = absurd (omega arith)
take_all (x ∷ xs) (suc n) h = ap (◌∷◌ x) (take_all xs n (omega arith))

module _ {F P : Type 0} ⦃fl : Float F⦄ (sum : List F → F) where
  pub length-specs :
      (discount last : F) (rs : List F) (outs : List (Blocks (Res F P)))
      → length outs ≡ length rs
      → length (advantage_specs sum discount last rs outs) ≡ length rs
  unfolding advantage_specs
  length-specs discount last [] outs h = refl
  length-specs discount last (r ∷ rs) [] h = h
  length-specs discount last (r ∷ rs) (out ∷ outs) h =
      ap suc (length-specs discount last rs outs (omega arith))

module _ {F L P U D : Type 0} ⦃fl : Float F⦄ (sum : List F → F) (b : BpttApi F L P U D)
    (logging : Bool) where
  -- The steps that come later first, so that each one gets the state gradients of the next.
  unfoldable pub through_time :
      L → List (Blocks (Res F P)) → List (List F) → List F → Back F U D → Result (Back F U D)
  through_time agent [] actions advs s = ok s
  through_time agent (out ∷ outs) [] advs s = ok s
  through_time agent (out ∷ outs) (sampled ∷ actions) [] s = ok s
  through_time agent (out ∷ outs) (sampled ∷ actions) (advantage ∷ advs) s =
      through_time agent outs actions advs s >>= back_step sum b logging agent out sampled advantage

  through_time-snoc :
      (agent : L) (outs : List (Blocks (Res F P))) (actions : List (List F)) (advs : List F)
      (out : Blocks (Res F P)) (sampled : List F) (advantage : F) (s : Back F U D)
      → length outs ≡ length advs
      → length actions ≡ length advs
      → through_time agent (outs ++ out ∷ []) (actions ++ sampled ∷ []) (advs ++ advantage ∷ []) s
        ≡ (back_step sum b logging agent out sampled advantage s
            >>= through_time agent outs actions advs)
  unfolding through_time
  through_time-snoc agent [] [] [] out sampled advantage s h k = sym (right_unit _)
  through_time-snoc agent (o ∷ outs) (a ∷ actions) (v ∷ advs) out sampled advantage s h k =
      ap (λ m. m >>= back_step sum b logging agent o a v)
        (through_time-snoc agent outs actions advs out sampled advantage s (omega arith)
          (omega arith))
      ∙ assoc (back_step sum b logging agent out sampled advantage s)
          (through_time agent outs actions advs) (back_step sum b logging agent o a v)
  through_time-snoc agent [] (a ∷ actions) [] out sampled advantage s h k = absurd (omega arith)
  through_time-snoc agent [] actions (v ∷ advs) out sampled advantage s h k = absurd (omega arith)
  through_time-snoc agent (o ∷ outs) actions [] out sampled advantage s h k = absurd (omega arith)
  through_time-snoc agent (o ∷ outs) [] (v ∷ advs) out sampled advantage s h k =
      absurd (omega arith)

  back_loop-through :
      (agent : L) (r : Rollout F P) (advs : List F) (t : ℕ) (s : Back F U D)
      → t ≤ length advs
      → length r.outs ≡ length advs
      → length r.sampled ≡ length advs
      → back_loop sum b logging agent r advs t s
        ≡ through_time agent (take t r.outs) (take t r.sampled) (take t advs) s
  unfolding back_loop through_time
  back_loop-through agent r advs zero s h same same' = refl
  back_loop-through agent r advs (suc t) s h same same' =
      let (out, e) = get_elem?-some r.outs t (omega arith) in
      let (advantage, f) = get_elem?-some advs t (omega arith) in
      let (sampled, g) = get_elem?-some r.sampled t (omega arith) in
      let now = back_step sum b logging agent out sampled advantage s in
      let step : back_loop sum b logging agent r advs (suc t) s
          ≡ (now >>= back_loop sum b logging agent r advs t) =
        rw (e, f, g, back_loop) refl in
      let earlier =
        λ (u : Back F U D). back_loop-through agent r advs t u (omega arith) same same' in
      let cut = length-take_short advs t (omega arith) in
      let snoc =
        through_time-snoc agent (take t r.outs) (take t r.sampled) (take t advs) out sampled
          advantage s (length-take_short r.outs t (omega arith) ∙ sym cut)
          (length-take_short r.sampled t (omega arith) ∙ sym cut) in
      step
      ∙ ap (λ k. now >>= k) (fun_ext earlier)
      ∙ rw (take-suc r.outs t out e, take-suc advs t advantage f, take-suc r.sampled t sampled g)
          (sym snoc)

module _ {F S L P G U D : Type 0} ⦃fl : Float F⦄ (api : AgentApi F L P G) (sum : List F → F)
    (b : BpttApi F L P U D) (logging : Bool) where
  -- For a rollout with as many outputs and actions as rewards, where there are parameters: back-propagation
  -- has no index out of range; it takes the steps from the last one to the first, with the advantages by
  -- their definition, and each step passes its state gradients on to the one before it.
  pub run_bptt-through_time :
      (r : Rollout F P) (w : Worker F S L P G) (discount : F)
      → b.has_params w.agent ≡ true
      → length r.outs ≡ length r.rewards
      → length r.sampled ≡ length r.rewards
      → run_bptt api sum b logging r w discount ≡ (
          through_time sum b logging w.agent r.outs r.sampled
            (advantage_specs sum discount (bootstrap api sum w) r.rewards r.outs)
            (start_back sum b logging w.agent)
          >>= λ s. ok (finish_back sum b logging w.agent r.beginning (length r.rewards) s))
  unfolding run_bptt
  run_bptt-through_time r w discount has same same' =
      let advs = advantage_specs sum discount (bootstrap api sum w) r.rewards r.outs in
      let as_many = length-specs sum discount (bootstrap api sum w) r.rewards r.outs same in
      let loop =
        back_loop-through sum b logging w.agent r advs (length advs)
          (start_back sum b logging w.agent) (omega arith) (omega (arith, as_many))
          (omega (arith, as_many)) in
      rw
        (
          has,
          advantages-specs api sum r w discount same,
          loop,
          take_all r.outs (length advs) (omega (arith, as_many)),
          take_all r.sampled (length advs) (omega (arith, as_many)),
          take_all advs (length advs) refl,
        )
        (ap
          (λ n.
            through_time sum b logging w.agent r.outs r.sampled advs
              (start_back sum b logging w.agent)
            >>= λ s. ok (finish_back sum b logging w.agent r.beginning n s))
          as_many)
