-- ===== src/Ppo/Clipped.antt =====
-- `PPOObjective` of anypg/ppo.go by cases on the ratio and on the sign of the advantage.
use trpo.Prelude.{
  ◌≡◌, refl, ap, ap₂, ◌∙◌, List, [], ◌∷◌, map, true, false, length, length-map, if◌then◌else◌,
}
use trpo.Prelude.Float.{Float}
use trpo.Prelude.Failure.{ok}
use trpo.ActionSpace.Densities.{zip_with}
use trpo.ActionSpace.Zeros.{length-zip_with, entrywise_ok}
use trpo.Ppo.{clip, smaller, ppo_objective}

-- A total order, where a factor that is not negative keeps the order and a negative one turns it.
pub record Ordered {F : Type 0} (fl : Float F) : Type 0 where
  pub keeps :
      (x y a : F)
      → fl.below x y ≡ true
      → fl.below a (fl.of_ℕ 0) ≡ false
      → fl.below (fl.times y a) (fl.times x a) ≡ false
  pub turns :
      (x y a : F)
      → fl.below x y ≡ true
      → fl.below a (fl.of_ℕ 0) ≡ true
      → fl.below (fl.times x a) (fl.times y a) ≡ false
  pub tie : (x y : F) → fl.below x y ≡ false → fl.below y x ≡ false → x ≡ y

module _ {F : Type 0} ⦃fl : Float F⦄ where
  open fl use {of_ℕ, plus, minus, times, below}

  -- A ratio below the range counts as its lower end where the advantage is negative, one above it as its upper
  -- end where the advantage is not, and any other ratio as it is.
  unfoldable pub pessimistic : F → F → F → F
  pessimistic eps r a =
      if below r (minus (of_ℕ 1) eps)
      then (if below a (of_ℕ 0) then times (minus (of_ℕ 1) eps) a else times r a)
      else (if below (plus (of_ℕ 1) eps) r
          then (if below a (of_ℕ 0) then times r a else times (plus (of_ℕ 1) eps) a)
          else times r a)

  module _ (ord : Ordered fl) where
    smaller_left : (x y : F) → below y x ≡ false → smaller x y ≡ x
    smaller_left x y h = rw h refl

    smaller_right : (x y : F) → below x y ≡ false → smaller x y ≡ y
    smaller_right x y h =
        elim (below y x) as (λ b. below y x ≡ b → smaller x y ≡ y) [
          | true ↦ λ e. rw e refl
          | false ↦ λ e. rw e (ord.tie x y h e)
        ]
          refl

    one_lem :
        (eps r a : F)
        → smaller (times (clip (minus (of_ℕ 1) eps) (plus (of_ℕ 1) eps) r) a) (times r a)
          ≡ pessimistic eps r a
    unfolding pessimistic
    one_lem eps r a =
        let low = minus (of_ℕ 1) eps in
        let high = plus (of_ℕ 1) eps in
        elim (below r low)
            as (λ b.
              below r low ≡ b
              → smaller (times (clip low high r) a) (times r a) ≡ pessimistic eps r a) [
                | true ↦ λ under.
                    elim (below a (of_ℕ 0))
                        as (λ b.
                          below a (of_ℕ 0) ≡ b
                          → smaller (times (clip low high r) a) (times r a) ≡ pessimistic eps r a) [
                            | true ↦ λ neg.
                                rw (under, neg) (smaller_left _ _ (ord.turns r low a under neg))
                            | false ↦ λ some.
                                rw (under, some) (smaller_right _ _ (ord.keeps r low a under some))
                          ]
                      refl
                | false ↦ λ inside.
                    elim (below high r)
                        as (λ b.
                          below high r ≡ b
                          → smaller (times (clip low high r) a) (times r a) ≡ pessimistic eps r a) [
                            | true ↦ λ over.
                                elim (below a (of_ℕ 0))
                                    as (λ b.
                                      below a (of_ℕ 0) ≡ b
                                      → smaller (times (clip low high r) a) (times r a)
                                        ≡ pessimistic eps r a) [
                                          | true ↦ λ neg.
                                              rw (inside, over, neg)
                                                (smaller_right _ _ (ord.turns high r a over neg))
                                          | false ↦ λ some.
                                              rw (inside, over, some)
                                                (smaller_left _ _ (ord.keeps high r a over some))
                                        ]
                                  refl
                            | false ↦ λ within. rw (inside, within) (same (times r a))
                          ]
                      refl
              ]
          refl
      where
        same : (x : F) → smaller x x ≡ x
        same x = elim (below x x) as (λ b. (if b then x else x) ≡ x) [ true ↦ refl | false ↦ refl ]

    -- Of as many advantages as ratios, each value of the objective is the product of the advantage and of the
    -- ratio, but where the ratio has left its range in the direction in which the advantage pulls it: then it
    -- is the product with the end of the range, if products keep or turn a total order by the sign of a factor.
    pub ppo_objective-pessimistic :
        (eps : F) (rats advs : List F)
        → length rats ≡ length advs
        → ppo_objective eps rats advs ≡ ok (zip_with (pessimistic eps) rats advs)
    unfolding ppo_objective
    ppo_objective-pessimistic eps rats advs h =
        let n = length advs in
        let clipped = map (clip (minus (of_ℕ 1) eps) (plus (of_ℕ 1) eps)) rats in
        let len_clipped : length clipped ≡ n = length-map _ rats ∙ h in
        let bounded = zip_with times clipped advs in
        let len_bounded = length-zip_with times n clipped advs len_clipped refl in
        let plain = zip_with times rats advs in
        let len_plain = length-zip_with times n rats advs h refl in
        rw
          (
            entrywise_ok times n clipped advs len_clipped refl,
            entrywise_ok times n rats advs h refl,
          )
          (entrywise_ok smaller n bounded plain len_bounded len_plain ∙ ap ok (each rats advs))
      where
        each :
            (rats advs : List F)
            → zip_with smaller
                (zip_with times (map (clip (minus (of_ℕ 1) eps) (plus (of_ℕ 1) eps)) rats) advs)
                (zip_with times rats advs)
              ≡ zip_with (pessimistic eps) rats advs
        each [] advs = refl
        each (r ∷ rats) [] = refl
        each (r ∷ rats) (a ∷ advs) = ap₂ ◌∷◌ (one_lem eps r a) (each rats advs)
