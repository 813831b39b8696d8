-- ===== src/Padding/Parsed.antt =====
-- padding/padding.go: what a scheme that NewPaddingFactory accepts is parsed into.
use anytls_x.Base.{
  ℕ, subst, ◌^◌, ◌≤◌, ◌<◌, ◌≡◌, refl, ◌⊎◌, inl, inr, ◌≢◌, Option, none, some, List, [], ◌∷◌, arith,
  All, on_some, on_some_cases, WhenSome, WhenSome-on_some,
}
use mathlib.Core.List.{cons≢nil}
use anytls_x.Text.Strings.{split, split_two, split_last, trim_space}
use anytls_x.Text.Numbers.{positive}
use anytls_x.Text.Bounds.{IsInt, positive-IsInt}
use anytls_x.Text.Maps.{StringMap, string_map_from_bytes, find}
use anytls_x.Padding.Defs.{
  PaddingBucket, PadTarget, RecordShaperConfig, PaddingFactory, target,
  default_record_shaper_config, total_of,
}
use anytls_x.Padding.Parse.{
  collect, in_order, bounds, parse_range, parse_pad_target, parse_pad_targets, parse_int_list,
  parse_bucket, parse_buckets, key_pad_dist, key_pad_targets, key_headers_target, key_idle_sizes,
  key_idle_interval, key_idle_threshold, key_wnd_update_interval, unless_empty, with_pad_targets,
  with_headers_target, with_idle_sizes, with_idle_interval, with_idle_threshold,
  with_wnd_update_interval, parse_record_shaper_config, pad_buckets_of, factory_of,
  new_padding_factory,
}

-- A range of positive ints, the bounds in order.
abbrev pub IsRange : PadTarget → Type 0
IsRange t = (0 < t.min) × (t.min ≤ t.max) × (t.max < 2 ^ 63)

abbrev pub IsBucket : PaddingBucket → Type 0
IsBucket b = (0 < b.min) × (b.min ≤ b.max) × (b.max < 2 ^ 63) × IsInt b.weight

pub record IsConfig (cfg : RecordShaperConfig) : Type 0 where
  pub some_target : cfg.pad_targets ≢ []
  pub all_ranges : All IsRange cfg.pad_targets
  pub headers_range : IsRange cfg.headers_target
  pub all_sizes : All IsInt cfg.idle_sizes
  pub interval_range :
      ((cfg.idle_interval_lo ≡ 0) × (cfg.idle_interval_hi ≡ 0))
      ⊎ IsRange (target cfg.idle_interval_lo cfg.idle_interval_hi)
  pub threshold_range : cfg.idle_threshold_ms < 2 ^ 63
  pub wnd_range : IsInt cfg.wnd_update_interval

pub record IsParsed (md5_hex : List ℕ → List ℕ) (raw : List ℕ) (p : PaddingFactory) : Type 0 where
  pub raw_kept : p.raw_scheme ≡ raw
  pub md5_kept : p.md5 ≡ md5_hex raw
  pub some_bucket : p.pad_buckets ≢ []
  pub all_buckets : All IsBucket p.pad_buckets
  pub total_kept : p.total_weight ≡ total_of p.pad_buckets
  pub config_kept : IsConfig p.record_config

collect-All {ℓ κ} :
    {A : Type ℓ} (P : A → Type κ) (body : List ℕ → Option A) (parts : List (List ℕ))
    → ((part : List ℕ) → WhenSome P (body part))
    → All P (collect body parts)
unfolding collect
collect-All P body [] h = tt
collect-All P body (part ∷ parts) h =
    on_some_cases (All P) (body part) _ _ (λ _. collect-All P body parts h)
      λ a eq. (subst (WhenSome P) eq (h part), collect-All P body parts h)

in_order-IsRange : (lo hi : ℕ) → IsInt lo → IsInt hi → IsRange (in_order lo hi)
unfolding in_order
in_order-IsRange lo hi l h = ground arith

bounds-IsRange : (p : List ℕ × List ℕ) → WhenSome IsRange (bounds p)
unfolding bounds
bounds-IsRange (l, h) = WhenSome-on_some IsInt IsRange (positive l) _ (positive-IsInt l) λ lo il.
    WhenSome-on_some IsInt IsRange (positive h) _ (positive-IsInt h)
      λ hi ih. in_order-IsRange lo hi il ih

parse_range-IsRange : (s : List ℕ) → WhenSome IsRange (parse_range s)
unfolding parse_range
parse_range-IsRange s =
    on_some_cases (WhenSome IsRange) (split_two 45 s) _ _ (λ _. tt) λ p _. bounds-IsRange p

parse_pad_target-IsRange : (s : List ℕ) → WhenSome IsRange (parse_pad_target s)
unfolding parse_pad_target
parse_pad_target-IsRange s =
    on_some_cases (WhenSome IsRange) (split_two 45 s) _ _
      (λ _. WhenSome-on_some IsInt IsRange (positive s) _ (positive-IsInt s) λ v h. ground arith)
      λ p _. bounds-IsRange p

parse_bucket-IsBucket : (s : List ℕ) → WhenSome IsBucket (parse_bucket s)
unfolding parse_bucket
parse_bucket-IsBucket s =
    on_some_cases (WhenSome IsBucket) (split_last 58 s) _ _ (λ _. tt)
      λ p _. WhenSome-on_some IsInt IsBucket (positive (p.1)) _ (positive-IsInt (p.1)) λ w iw.
        WhenSome-on_some IsRange IsBucket (parse_range (p.0)) _ (parse_range-IsRange (p.0))
          λ t it. (it.0, it.1, it.2, iw)

unless_empty-All {ℓ κ} :
    {A : Type ℓ} (P : A → Type κ) (xs old : List A)
    → All P xs
    → All P old
    → All P (unless_empty xs old)
unless_empty-All P [] old h k = k
unless_empty-All P (x ∷ xs) old h k = h

unless_empty-ne {ℓ} : {A : Type ℓ} (xs old : List A) → old ≢ [] → unless_empty xs old ≢ []
unless_empty-ne [] old h = h
unless_empty-ne (x ∷ xs) old h = cons≢nil

-- A step that leaves the configuration alone, or changes it by what a key holds.
when_found :
    {A : Type 0} (P : A → Type 0) (o : Option A) (cfg : RecordShaperConfig)
    (f : A → RecordShaperConfig)
    → IsConfig cfg
    → WhenSome P o
    → ((a : A) → P a → IsConfig (f a))
    → IsConfig (on_some o cfg f)
when_found P none cfg f c h k = c
when_found P (some a) cfg f c h k = k a h

module _ (m : StringMap) (cfg : RecordShaperConfig) (c : IsConfig cfg) where
  with_pad_targets-IsConfig : IsConfig (with_pad_targets m cfg)
  unfolding with_pad_targets parse_pad_targets
  with_pad_targets-IsConfig =
      on_some_cases IsConfig (find key_pad_targets m) _ _ (λ _. c)
        λ s _. record {
          some_target = unless_empty-ne (parse_pad_targets s) cfg.pad_targets c.some_target;
          all_ranges =
              unless_empty-All IsRange (parse_pad_targets s) cfg.pad_targets
                (collect-All IsRange _ (split 44 s)
                  λ part. parse_pad_target-IsRange (trim_space part))
                c.all_ranges;
          headers_range = c.headers_range;
          all_sizes = c.all_sizes;
          interval_range = c.interval_range;
          threshold_range = c.threshold_range;
          wnd_range = c.wnd_range;
        }

  with_headers_target-IsConfig : IsConfig (with_headers_target m cfg)
  unfolding with_headers_target
  with_headers_target-IsConfig =
      on_some_cases IsConfig (find key_headers_target m) _ _ (λ _. c)
        λ s _. when_found IsRange (parse_range s) cfg _ c (parse_range-IsRange s) λ t h. record {
          some_target = c.some_target;
          all_ranges = c.all_ranges;
          headers_range = h;
          all_sizes = c.all_sizes;
          interval_range = c.interval_range;
          threshold_range = c.threshold_range;
          wnd_range = c.wnd_range;
        }

  with_idle_sizes-IsConfig : IsConfig (with_idle_sizes m cfg)
  unfolding with_idle_sizes parse_int_list
  with_idle_sizes-IsConfig =
      on_some_cases IsConfig (find key_idle_sizes m) _ _ (λ _. c)
        λ s _. record {
          some_target = c.some_target;
          all_ranges = c.all_ranges;
          headers_range = c.headers_range;
          all_sizes =
              unless_empty-All IsInt (parse_int_list s) cfg.idle_sizes
                (collect-All IsInt _ (split 44 s) λ part. positive-IsInt (trim_space part))
                c.all_sizes;
          interval_range = c.interval_range;
          threshold_range = c.threshold_range;
          wnd_range = c.wnd_range;
        }

  with_idle_interval-IsConfig : IsConfig (with_idle_interval m cfg)
  unfolding with_idle_interval
  with_idle_interval-IsConfig =
      on_some_cases IsConfig (find key_idle_interval m) _ _ (λ _. c)
        λ s _. when_found IsRange (parse_range s) cfg _ c (parse_range-IsRange s) λ t h. record {
          some_target = c.some_target;
          all_ranges = c.all_ranges;
          headers_range = c.headers_range;
          all_sizes = c.all_sizes;
          interval_range = inr h;
          threshold_range = c.threshold_range;
          wnd_range = c.wnd_range;
        }

  with_idle_threshold-IsConfig : IsConfig (with_idle_threshold m cfg)
  unfolding with_idle_threshold
  with_idle_threshold-IsConfig =
      on_some_cases IsConfig (find key_idle_threshold m) _ _ (λ _. c)
        λ s _. when_found IsInt (positive s) cfg _ c (positive-IsInt s) λ v h. record {
          some_target = c.some_target;
          all_ranges = c.all_ranges;
          headers_range = c.headers_range;
          all_sizes = c.all_sizes;
          interval_range = c.interval_range;
          threshold_range = h.1;
          wnd_range = c.wnd_range;
        }

  with_wnd_update_interval-IsConfig : IsConfig (with_wnd_update_interval m cfg)
  unfolding with_wnd_update_interval
  with_wnd_update_interval-IsConfig =
      on_some_cases IsConfig (find key_wnd_update_interval m) _ _ (λ _. c)
        λ s _. when_found IsInt (positive s) cfg _ c (positive-IsInt s) λ v h. record {
          some_target = c.some_target;
          all_ranges = c.all_ranges;
          headers_range = c.headers_range;
          all_sizes = c.all_sizes;
          interval_range = c.interval_range;
          threshold_range = c.threshold_range;
          wnd_range = h;
        }

default-IsConfig : IsConfig default_record_shaper_config
default-IsConfig = record {
  some_target = cons≢nil;
  all_ranges = (omega arith);
  headers_range = (omega arith);
  all_sizes = tt;
  interval_range = inl (refl, refl);
  threshold_range = omega arith;
  wnd_range = (omega arith, omega arith);
}

parse_record_shaper_config-IsConfig : (m : StringMap) → IsConfig (parse_record_shaper_config m)
unfolding parse_record_shaper_config
parse_record_shaper_config-IsConfig m = with_wnd_update_interval-IsConfig m _ (
    with_idle_threshold-IsConfig m _ (
      with_idle_interval-IsConfig m _ (
        with_idle_sizes-IsConfig m _
          (with_headers_target-IsConfig m _ (with_pad_targets-IsConfig m _ default-IsConfig)))))

pad_buckets_of-IsBucket :
    (m : StringMap) → (pad_buckets_of m ≢ []) × All IsBucket (pad_buckets_of m)
unfolding pad_buckets_of parse_buckets
pad_buckets_of-IsBucket m =
    let default : All IsBucket (record { min = 35; max = 35; weight = 100 } ∷ []) =
      (ground arith, tt) in
    let found : All IsBucket (on_some (find key_pad_dist m) [] parse_buckets) =
      on_some_cases (All IsBucket) (find key_pad_dist m) _ _ (λ _. tt)
        λ s _.
          collect-All IsBucket _ (split 44 s) λ part. parse_bucket-IsBucket (trim_space part) in
    (unless_empty-ne _ _ cons≢nil, unless_empty-All IsBucket _ _ found default)

module _ (md5_hex : List ℕ → List ℕ) where
  factory_of-IsParsed :
      (raw : List ℕ) (m : StringMap) → WhenSome (IsParsed md5_hex raw) (factory_of md5_hex raw m)
  factory_of-IsParsed raw [] = tt
  factory_of-IsParsed raw (kv ∷ m) = record {
    raw_kept = refl;
    md5_kept = refl;
    some_bucket = (pad_buckets_of-IsBucket (kv ∷ m)).0;
    all_buckets = (pad_buckets_of-IsBucket (kv ∷ m)).1;
    total_kept = refl;
    config_kept = parse_record_shaper_config-IsConfig (kv ∷ m);
  }

  -- Whatever the scheme and the checksum function, a configuration that NewPaddingFactory makes
  -- keeps the scheme and its checksum, has at least one bucket, each with positive bounds in order
  -- and a positive weight, has their 64-bit total, has at least one pad target, and has pad
  -- targets, a headers target, idle sizes and intervals that are positive ints in order wherever
  -- they are set.
  pub new_padding_factory-IsParsed :
      (raw : List ℕ) (p : PaddingFactory)
      → new_padding_factory md5_hex raw ≡ some p
      → IsParsed md5_hex raw p
  unfolding new_padding_factory
  new_padding_factory-IsParsed raw p h =
      subst (WhenSome (IsParsed md5_hex raw)) h
        (factory_of-IsParsed raw (string_map_from_bytes raw))
