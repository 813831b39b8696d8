-- ===== src/Padding/Sampled.antt =====
-- padding/padding.go, SamplePaddingLen: the lengths that a parsed scheme can give.
use anytls_x.Base.{
  ℕ, sym, subst, ◌+◌, ◌-◌, ◌%◌, ◌^◌, ◌≤◌, ◌<◌, ◌≡◌, ◌≢◌, refl, ◌⊎◌, inl, inr, ◌||◌, some, List, [],
  ◌∷◌, arith, length, ltb, leb, ◌==◌, All, Any, Any-map, All-Any, if_cases,
}
use anytls_x.Env.{Env, IsRandom, World, M}
use anytls_x.Rand.Defs.{fast_intn}
use anytls_x.Rand.Bounds.{fast_intn-lt}
use anytls_x.Padding.Defs.{
  PaddingBucket, PaddingFactory, total_of, pick_bucket, sample_span, sample_bucket,
  sample_padding_len,
}
use anytls_x.Padding.Parse.{new_padding_factory}
use anytls_x.Padding.Parsed.{IsBucket, new_padding_factory-IsParsed}

-- The sum of the weights, as a number.
pub weight_sum : List PaddingBucket → ℕ
weight_sum [] = 0
weight_sum (b ∷ bs) = b.weight + weight_sum bs

length-pos : (bs : List PaddingBucket) → bs ≢ [] → 0 < length bs
length-pos [] h = absurd (h refl)
length-pos (b ∷ bs) h = omega arith

total_of-weight_sum : (bs : List PaddingBucket) → total_of bs ≡ weight_sum bs % 2 ^ 64
unfolding total_of weight_sum
total_of-weight_sum [] = refl
total_of-weight_sum (b ∷ bs) = omega (arith, total_of-weight_sum bs)

weight_sum-pos : (bs : List PaddingBucket) → bs ≢ [] → All IsBucket bs → 0 < weight_sum bs
unfolding weight_sum
weight_sum-pos [] h k = absurd (h refl)
weight_sum-pos (b ∷ bs) h k = omega (arith, k.0.3.0)

-- A draw below the total ends the loop within the buckets.
pick_bucket-Any :
    (bs : List PaddingBucket) (pick : ℕ)
    → pick < weight_sum bs
    → Any (λ b. pick_bucket pick bs ≡ b) bs
unfolding pick_bucket weight_sum
pick_bucket-Any [] pick h = absurd (omega arith)
pick_bucket-Any (b ∷ bs) pick h =
    if_cases (λ r. Any (λ c. r ≡ c) (b ∷ bs)) (ltb pick b.weight) _ _ (λ _. inl refl)
      λ past. inr (pick_bucket-Any bs (pick - b.weight) (ground (arith, past)))

-- A length that the bucket gives: its one value, or one within its bounds that is cut to 1100.
abbrev pub IsSampled : ℕ → PaddingBucket → Type 0
IsSampled r b =
    ((b.min ≡ b.max) × (r ≡ b.min)) ⊎ (((b.min ≤ r) ⊎ (r ≡ 1100)) × (r ≤ b.max) × (r ≤ 1100))

sample_span-IsSampled :
    (e : Env)
    → IsRandom e
    → (b : PaddingBucket) (w : World) → b.min ≤ b.max
    → IsSampled (sample_span e b w).0 b
unfolding sample_span
sample_span-IsSampled e r b w h = inr (ground (arith, fast_intn-lt e r (b.max - b.min + 1) w))

sample_bucket-IsSampled :
    (e : Env)
    → IsRandom e
    → (b : PaddingBucket) (w : World) → b.min ≤ b.max
    → IsSampled (sample_bucket e b w).0 b
unfolding sample_bucket
sample_bucket-IsSampled e r b w h =
    if_cases (λ (m : M ℕ). IsSampled (m w).0 b) (b.min == b.max) _ _
      (λ same. inl (ground (arith, same), refl)) λ _. sample_span-IsSampled e r b w h

module _ (md5_hex : List ℕ → List ℕ) where
  -- With a generator that stays in its range and a configuration that NewPaddingFactory made,
  -- SamplePaddingLen answers 0 and the weights add up to 2^63 at least, or answers what one of the
  -- buckets gives: the value of a bucket whose bounds are equal, uncapped, or a length of at most
  -- 1100 and at most the upper bound that is at least the lower bound or 1100 itself.
  pub sample_padding_len-IsSampled :
      (e : Env)
      → IsRandom e
      → (raw : List ℕ) (p : PaddingFactory) (w : World) → new_padding_factory md5_hex raw ≡ some p
      → (((sample_padding_len e p w).0 ≡ 0) × (2 ^ 63 ≤ weight_sum p.pad_buckets))
        ⊎ Any (IsSampled (sample_padding_len e p w).0) p.pad_buckets
  unfolding sample_padding_len
  sample_padding_len-IsSampled e r raw p w h =
      let q = new_padding_factory-IsParsed md5_hex raw p h in
      let wrapped = total_of-weight_sum p.pad_buckets in
      let has = length-pos p.pad_buckets q.some_bucket in
      let drawn = fast_intn-lt e r p.total_weight w in
      let pos = weight_sum-pos p.pad_buckets q.some_bucket q.all_buckets in
      if_cases
        (λ (m : M ℕ).
          (((m w).0 ≡ 0) × (2 ^ 63 ≤ weight_sum p.pad_buckets))
          ⊎ Any (IsSampled (m w).0) p.pad_buckets)
        (length p.pad_buckets == 0 || (p.total_weight == 0 || leb (2 ^ 63) p.total_weight)) _ _
        (λ none_due. inl (refl, ground (arith, none_due, wrapped, q.total_kept, pos, has)))
        λ due.
          let draw = fast_intn e p.total_weight w in
          inr (
            Any-map _ _ p.pad_buckets
              (λ b k.
                subst (λ c. IsSampled (sample_bucket e c draw.1).0 b) (sym (k.1))
                  (sample_bucket-IsSampled e r b (draw.1) (k.0.1)))
              (All-Any IsBucket _ p.pad_buckets q.all_buckets (
                pick_bucket-Any p.pad_buckets (draw.0)
                  (ground (arith, due, wrapped, q.total_kept, drawn)))))
