-- ===== src/Noise/Indices.antt =====
-- `randomIndices`, `Gen` and `GenSum` (anyes/noise.go): they end, and no index is out of range.
use native.Mathlib.Nat.{mod-lt, one-le-pow, two-pow-succ}
use trpo.Prelude.{
  ℕ, zero, suc, ◌-◌, ◌/◌, ◌%◌, ◌^◌, ◌≤◌, ◌<◌, ◌≡◌, refl, ap, sym, ◌∙◌, List, [], ◌∷◌, ◌++◌, Option,
  none, some, arith, length, length-append, take, length-take, All, get_elem?-some, replicate,
  length-replicate, leb, ltb, true, false, Bool-cases, inl, inr, ltb→lt, eq→==,
}
use trpo.Prelude.Float.{Float}
use trpo.Prelude.Failure.{Result, ok, panic, err, ◌>>=◌}
use trpo.Noise.{
  RandApi, Noise, digits_from, indices_from, random_indices, normals, new_noise, scaled, gen,
  add_to, sum_noise, gen_sum, log2,
}
use trpo.Noise.Log2.{log2_iff}

abbrev pub Below : ℕ → List ℕ → Type 0
Below bound = All λ i. i < bound

Below-append : (b : ℕ) (xs ys : List ℕ) → Below b xs → Below b ys → Below b (xs ++ ys)
Below-append b [] ys h k = k
Below-append b (x ∷ xs) ys (h, hs) k = (h, Below-append b xs ys hs k)

Below-take : (b n : ℕ) (xs : List ℕ) → Below b xs → Below b (take n xs)
Below-take b zero xs h = tt
Below-take b (suc n) [] h = tt
Below-take b (suc n) (x ∷ xs) (h, hs) = (h, Below-take b n xs hs)

record AreDigits (len_log : ℕ) (found : Option (List ℕ)) : Type 0 where
  digits : List ℕ
  given : found ≡ some digits
  below : Below (2 ^ len_log) digits

digits_from-AreDigits :
    (fuel len_log remaining next : ℕ)
    → 0 < len_log
    → remaining < fuel
    → AreDigits len_log (digits_from fuel len_log remaining next)
unfolding digits_from
digits_from-AreDigits zero len_log remaining next pos h = absurd (omega arith)
digits_from-AreDigits (suc fuel) len_log remaining next pos h =
    elim (Bool-cases (leb len_log remaining)) [
      | inl more ↦
          let r =
            digits_from-AreDigits fuel len_log (remaining - len_log) (next / 2 ^ len_log) pos
              (ground arith) in
          record {
            digits = (next % 2 ^ len_log) ∷ r.digits;
            given = rw (more, r.given);
            below = (mod-lt next (one-le-pow len_log 2 (omega arith)), r.below);
          }
      | inr last ↦ record { digits = []; given = rw last; below = tt }
    ]

digits_from-ne-nil :
    (fuel len_log next : ℕ) → len_log ≤ 63 → digits_from fuel len_log 63 next ≡ some [] → ⊥
unfolding digits_from
digits_from-ne-nil zero len_log next h e = cc
digits_from-ne-nil (suc fuel) len_log next h e = ground arith

length-pos : (xs : List ℕ) → (xs ≡ [] → ⊥) → 0 < length xs
length-pos [] h = absurd (h refl)
length-pos (x ∷ xs) h = omega arith

module _ {F R : Type 0} (api : RandApi F R) where
  record AreIndices (len_log size : ℕ) (found : Option (List ℕ)) : Type 0 where
    res : List ℕ
    given : found ≡ some res
    enough : size ≤ length res
    below : Below (2 ^ len_log) res

  indices_from-stop :
      (fuel len_log size : ℕ) (source : R) (res : List ℕ)
      → ltb (length res) size ≡ false
      → indices_from api (suc fuel) len_log size source res ≡ some res
  unfolding indices_from
  indices_from-stop fuel len_log size source res e = ground arith

  indices_from-next :
      (fuel len_log size : ℕ) (source : R) (res ds : List ℕ)
      → ltb (length res) size ≡ true
      → digits_from 64 len_log 63 (api.int63 source).0 ≡ some ds
      → indices_from api (suc fuel) len_log size source res
        ≡ indices_from api fuel len_log size (api.int63 source).1 (res ++ ds)
  unfolding indices_from
  indices_from-next fuel len_log size source res ds e f = ground arith

  indices_from-AreIndices :
      (fuel len_log size : ℕ) (source : R) (res : List ℕ)
      → 0 < len_log
      → len_log ≤ 63
      → size - length res < fuel
      → Below (2 ^ len_log) res
      → AreIndices len_log size (indices_from api fuel len_log size source res)
  indices_from-AreIndices zero len_log size source res pos h f b = absurd (omega arith)
  indices_from-AreIndices (suc fuel) len_log size source res pos h f b =
      elim (Bool-cases (ltb (length res) size)) [
        | inl more ↦
            let (next, source') = api.int63 source in
            let d = digits_from-AreDigits 64 len_log 63 next pos (omega arith) in
            let grows =
              length-pos d.digits
                (λ e. digits_from-ne-nil 64 len_log next h (d.given ∙ ap some e)) in
            let r =
              indices_from-AreIndices fuel len_log size source' (res ++ d.digits) pos h
                (omega (arith, length-append res d.digits, grows, ltb→lt _ _ more))
                (Below-append (2 ^ len_log) res d.digits b d.below) in
            record {
              res = r.res;
              given =
                  indices_from-next fuel len_log size source res d.digits more d.given ∙ r.given;
              enough = r.enough;
              below = r.below;
            }
        | inr done ↦ record {
          res = res;
          given = indices_from-stop fuel len_log size source res done;
          enough = ground arith;
          below = b;
        }
      ]

  -- For noise of a length 2 to 2^63 the loops of `randomIndices` end, with as many indices as are asked
  -- for, all inside the noise.
  random_indices-Below :
      (len_log : ℕ) (source : R) (size : ℕ)
      → 0 < len_log
      → len_log ≤ 63
      → (is : List ℕ) × (random_indices api len_log source size ≡ some is)
        × (length is ≡ size)
        × Below (2 ^ len_log) is
  unfolding random_indices
  random_indices-Below len_log source size pos h =
      let r = indices_from-AreIndices (suc size) len_log size source [] pos h (omega arith) tt in
      (
        take size r.res,
        rw (r.given, random_indices),
        omega (arith, length-take size r.res, r.enough),
        Below-take (2 ^ len_log) size r.res r.below,
      )

  length-normals : (n : ℕ) (gen : R) → length (normals api n gen) ≡ n
  unfolding normals
  length-normals zero gen = refl
  length-normals (suc n) gen = ap suc (length-normals n (api.norm_float64 gen).1)

  -- What `NewNoise` makes, if it does not panic.
  pub record IsNoise (seed len : ℕ) (n : Noise F) : Type 0 where
    pub seeded : n.seed ≡ seed
    pub sized : length n.data_of ≡ len
    pub is_pow : len ≡ 2 ^ n.len_log
    pub log_le : n.len_log ≤ 63

  pub new_noise-IsNoise :
      (seed len : ℕ) (n : Noise F) → new_noise api seed len ≡ ok n → IsNoise seed len n
  new_noise-IsNoise seed len n h = next (log2 len) refl (unfold new_noise in h)
    where
      made : ℕ → Noise F
      made l = record { seed = seed; data_of = normals api len (api.new_source seed); len_log = l }

      next : (r : Result ℕ) → log2 len ≡ r → (r >>= λ l. ok (made l)) ≡ ok n → IsNoise seed len n
      next panic e h = cc
      next (err x) e h = cc
      next (ok l) e h =
          let (small, pow) = (log2_iff len l).0 e in
          let same : made l ≡ n = cc in
          rw (← same) (record {
            seeded = refl;
            sized = length-normals len (api.new_source seed);
            is_pow = pow;
            log_le = omega arith;
          })

module _ {F R : Type 0} ⦃fl : Float F⦄ (api : RandApi F R) where
  scaled-ok :
      (scale : F) (values : List F) (is : List ℕ)
      → Below (length values) is
      → (xs : List F) × (scaled api scale values is ≡ ok xs) × (length xs ≡ length is)
  unfolding scaled
  scaled-ok scale values [] b = ([], refl, refl)
  scaled-ok scale values (i ∷ is) (h, b) =
      let (x, e) = get_elem?-some values i h in
      let (xs, f, l) = scaled-ok scale values is b in
      (fl.times scale x ∷ xs, rw (e, f, scaled), ap suc l)

  -- The value of a call that returns.
  abbrev pub Gives : ℕ → Option (Result (List F)) → Type 0
  Gives amount r = (xs : List F) × (r ≡ some (ok xs)) × (length xs ≡ amount)

  -- Noise that can be used: more than one value, and as many as the exponent says.
  pub record IsUsable (n : Noise F) : Type 0 where
    pub sized : length n.data_of ≡ 2 ^ n.len_log
    pub log_pos : 0 < n.len_log
    pub log_le : n.len_log ≤ 63

  gen-Gives :
      (n : Noise F) (scale : F) (seed amount : ℕ)
      → IsUsable n
      → Gives amount (gen api n scale seed amount)
  unfolding gen
  gen-Gives n scale seed amount u =
      let (is, e, l, b) =
        random_indices-Below api n.len_log (api.new_source seed) amount u.log_pos u.log_le in
      let (xs, f, m) = scaled-ok scale n.data_of is (rw u.sized b) in (xs, rw (e, gen, f), m ∙ l)

  add_to-ok :
      (res xs : List F)
      → length xs ≡ length res
      → (out : List F) × (add_to api res xs ≡ ok out) × (length out ≡ length res)
  unfolding add_to
  add_to-ok [] [] h = ([], refl, refl)
  add_to-ok [] (x ∷ xs) h = absurd (omega arith)
  add_to-ok (r ∷ res) [] h = absurd (omega arith)
  add_to-ok (r ∷ res) (x ∷ xs) h =
      let (out, e, l) = add_to-ok res xs (omega arith) in (fl.plus r x ∷ out, rw e, ap suc l)

  sum_noise-next :
      (n : Noise F) (amount : ℕ) (scale : F) (scales : List F) (seed : ℕ) (seeds : List ℕ)
      (res xs out : List F)
      → gen api n scale seed amount ≡ some (ok xs)
      → add_to api res xs ≡ ok out
      → sum_noise api n amount (scale ∷ scales) (seed ∷ seeds) res
        ≡ sum_noise api n amount scales seeds out
  unfolding sum_noise
  sum_noise-next n amount scale scales seed seeds res xs out e f = rw (e, f, sum_noise)

  sum_noise-Gives :
      (n : Noise F) (amount : ℕ) (scales : List F) (seeds : List ℕ) (res : List F)
      → IsUsable n
      → length scales ≡ length seeds
      → length res ≡ amount
      → Gives amount (sum_noise api n amount scales seeds res)
  sum_noise-Gives n amount [] seeds res u h k = (res, unfold sum_noise in refl, k)
  sum_noise-Gives n amount (scale ∷ scales) [] res u h k = absurd (omega arith)
  sum_noise-Gives n amount (scale ∷ scales) (seed ∷ seeds) res u h k =
      let (xs, e, l) = gen-Gives n scale seed amount u in
      let (out, f, m) = add_to-ok res xs (l ∙ sym k) in
      let (ys, g, o) = sum_noise-Gives n amount scales seeds out u (omega arith) (m ∙ k) in
      (ys, sum_noise-next n amount scale scales seed seeds res xs out e f ∙ g, o)

  usable : (seed len : ℕ) (n : Noise F) → new_noise api seed len ≡ ok n → 1 < len → IsUsable n
  usable seed len n h big =
      let i = new_noise-IsNoise api seed len n h in
      record { sized = i.sized ∙ i.is_pow; log_pos = pos n.len_log i.is_pow; log_le = i.log_le }
    where
      pos : (l : ℕ) → len ≡ 2 ^ l → 0 < l
      pos zero e = absurd (omega arith)
      pos (suc l) e = omega arith

  -- Noise that `NewNoise` makes with a length above 1 serves every request: the loops of `GenSum` end,
  -- no index is out of range, and the result has the length that is asked for, if there are as many
  -- scales as seeds.
  pub gen_sum_total :
      (seed len : ℕ) (n : Noise F) (scales : List F) (seeds : List ℕ) (amount : ℕ)
      → new_noise api seed len ≡ ok n
      → 1 < len
      → length scales ≡ length seeds
      → (xs : List F) × (gen_sum api n scales seeds amount ≡ some (ok xs)) × (length xs ≡ amount)
  unfolding gen_sum
  gen_sum_total seed len n scales seeds amount h big same = rw (eq→== _ _ same) (
      sum_noise-Gives n amount scales seeds (replicate amount (fl.of_ℕ 0)) (usable seed len n h big)
        same (length-replicate amount (fl.of_ℕ 0)))

  digits_from-zero : (fuel remaining next : ℕ) → digits_from fuel 0 remaining next ≡ none
  unfolding digits_from
  digits_from-zero zero remaining next = refl
  digits_from-zero (suc fuel) remaining next =
      ground (arith, digits_from-zero fuel (remaining - 0) (next / 2 ^ 0))

  gen-zero :
      (n : Noise F) (scale : F) (seed amount : ℕ)
      → n.len_log ≡ 0
      → 0 < amount
      → gen api n scale seed amount ≡ none
  unfolding gen random_indices indices_from
  gen-zero n scale seed amount e pos =
      ground (arith, digits_from-zero 64 63 (api.int63 (api.new_source seed)).0)

  -- `NewNoise` accepts the length 1, a power of two. The inner loop of `randomIndices` then subtracts 0
  -- from its counter: with no amount of fuel does it end, and `Gen` of a positive amount never returns.
  pub length_one_hangs :
      (seed : ℕ) (n : Noise F) (scale : F) (s amount fuel next : ℕ)
      → new_noise api seed 1 ≡ ok n
      → 0 < amount
      → (digits_from fuel n.len_log 63 next ≡ none) × (gen api n scale s amount ≡ none)
  length_one_hangs seed n scale s amount fuel next h pos =
      let zero_log = none_left n.len_log (new_noise-IsNoise api seed 1 n h).is_pow in
      (rw zero_log (digits_from-zero fuel 63 next), gen-zero n scale s amount zero_log pos)
    where
      none_left : (l : ℕ) → 1 ≡ 2 ^ l → l ≡ 0
      none_left zero e = refl
      none_left (suc l) e = absurd (omega (arith, two-pow-succ l, one-le-pow l 2 (omega arith)))
