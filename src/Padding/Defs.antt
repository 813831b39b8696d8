-- ===== src/Padding/Defs.antt =====
-- padding/padding.go: the configuration that a padding scheme is parsed into, and the sampling of the
-- length of the auth packet's padding. The parser lets in positive ints only, which are ℕ here;
-- the total of the weights can wrap around and is the unsigned word with the same 64 bits.
use anytls_x.Base.{
  ℕ, ◌+◌, ◌-◌, ◌%◌, ◌^◌, ◌||◌, List, [], ◌∷◌, length, ltb, leb, ◌==◌, if◌then◌else◌,
}
use anytls_x.Env.{Env, M, ◌>>=◌, pure}
use anytls_x.Rand.Defs.{fast_intn}

pub record PaddingBucket : Type 0 where
  pub min : ℕ
  pub max : ℕ
  pub weight : ℕ

pub record PadTarget : Type 0 where
  pub min : ℕ
  pub max : ℕ

pub record RecordShaperConfig : Type 0 where
  pub pad_targets : List PadTarget
  pub headers_target : PadTarget
  pub idle_sizes : List ℕ
  pub idle_interval_lo : ℕ
  pub idle_interval_hi : ℕ
  pub idle_threshold_ms : ℕ
  pub wnd_update_interval : ℕ

pub record PaddingFactory : Type 0 where
  pub raw_scheme : List ℕ
  pub md5 : List ℕ
  pub pad_buckets : List PaddingBucket
  pub total_weight : ℕ
  pub record_config : RecordShaperConfig

abbrev pub target : ℕ → ℕ → PadTarget
target lo hi = record { min = lo; max = hi }

abbrev pub default_record_shaper_config : RecordShaperConfig
default_record_shaper_config = record {
  pad_targets =
      target 14 14
      ∷ target 14 14
      ∷ target 17 17
      ∷ target 17 17
      ∷ target 17 17
      ∷ target 45 45
      ∷ target 22 30
      ∷ [];
  headers_target = target 90 140;
  idle_sizes = [];
  idle_interval_lo = 0;
  idle_interval_hi = 0;
  idle_threshold_ms = 0;
  wnd_update_interval = 131072;
}

-- The sum that NewPaddingFactory takes over its buckets, in 64 bits.
unfoldable pub total_of : List PaddingBucket → ℕ
total_of [] = 0
total_of (b ∷ bs) = (b.weight + total_of bs) % 2 ^ 64

-- `pick -= b.Weight` until it is negative: the bucket whose weights span `pick`. The bucket is Go's
-- zero value if the loop runs out.
unfoldable pub pick_bucket : ℕ → List PaddingBucket → PaddingBucket
pick_bucket pick [] = record { min = 0; max = 0; weight = 0 }
pick_bucket pick (b ∷ bs) = if ltb pick b.weight then b else pick_bucket (pick - b.weight) bs

-- The auth packet must fit in one TLS record: a sampled length is at most 1100.
unfoldable pub sample_span : Env → PaddingBucket → M ℕ
sample_span e b = do
  r ← fast_intn e (b.max - b.min + 1)
  pure (if ltb 1100 (b.min + r) then 1100 else b.min + r)

unfoldable pub sample_bucket : Env → PaddingBucket → M ℕ
unfolding sample_span
sample_bucket e b = if b.min == b.max then pure b.min else sample_span e b

unfoldable pub sample_padding_len : Env → PaddingFactory → M ℕ
unfolding sample_bucket pick_bucket
sample_padding_len e p =
    if length p.pad_buckets == 0 || (p.total_weight == 0 || leb (2 ^ 63) p.total_weight)
    then pure 0
    else (do pick ← fast_intn e p.total_weight; sample_bucket e (pick_bucket pick p.pad_buckets))
