-- ===== src/Padding/Parse.antt =====
-- padding/padding.go: NewPaddingFactory and the parsers of its keys. Each loop over the parts of a list
-- is `collect` with its body, which is none where the loop continues.
use anytls_x.Base.{ℕ, Option, none, some, List, [], ◌∷◌, ltb, if◌then◌else◌, on_some}
use anytls_x.Text.Strings.{split, split_two, split_last, trim_space}
use anytls_x.Text.Numbers.{positive}
use anytls_x.Text.Maps.{StringMap, string_map_from_bytes, find}
use anytls_x.Padding.Defs.{
  PaddingBucket, PadTarget, RecordShaperConfig, PaddingFactory, target,
  default_record_shaper_config, total_of,
}

-- `for _, part := range parts`, with `append` for a body that has a result.
unfoldable pub collect {ℓ} : {A : Type ℓ} → (List ℕ → Option A) → List (List ℕ) → List A
collect body [] = []
collect body (part ∷ parts) = on_some (body part) (collect body parts) λ a. a ∷ collect body parts

-- `if lo > hi { lo, hi = hi, lo }`
unfoldable pub in_order : ℕ → ℕ → PadTarget
in_order lo hi = if ltb hi lo then target hi lo else target lo hi

-- The two bounds of a range, both of them positive.
unfoldable pub bounds : List ℕ × List ℕ → Option PadTarget
unfolding in_order
bounds (l, h) =
    on_some (positive l) none λ lo. on_some (positive h) none λ hi. some (in_order lo hi)

unfoldable pub parse_range : List ℕ → Option PadTarget
unfolding bounds
parse_range s = on_some (split_two 45 s) none bounds

unfoldable pub parse_pad_target : List ℕ → Option PadTarget
unfolding bounds
parse_pad_target part =
    on_some (split_two 45 part) (on_some (positive part) none λ v. some (target v v)) bounds

unfoldable pub parse_pad_targets : List ℕ → List PadTarget
unfolding collect parse_pad_target
parse_pad_targets s = collect (λ part. parse_pad_target (trim_space part)) (split 44 s)

unfoldable pub parse_int_list : List ℕ → List ℕ
unfolding collect
parse_int_list s = collect (λ part. positive (trim_space part)) (split 44 s)

abbrev pub weighted : ℕ → PadTarget → PaddingBucket
weighted w t = record { min = t.min; max = t.max; weight = w }

unfoldable pub parse_bucket : List ℕ → Option PaddingBucket
unfolding parse_range
parse_bucket part = on_some (split_last 58 part) none λ p.
    on_some (positive (p.1)) none
      λ weight. on_some (parse_range (p.0)) none λ t. some (weighted weight t)

unfoldable pub parse_buckets : List ℕ → List PaddingBucket
unfolding collect parse_bucket
parse_buckets s = collect (λ part. parse_bucket (trim_space part)) (split 44 s)

-- "pad_dist"
abbrev pub key_pad_dist : List ℕ
key_pad_dist = 112 ∷ 97 ∷ 100 ∷ 95 ∷ 100 ∷ 105 ∷ 115 ∷ 116 ∷ []

-- "pad_targets"
abbrev pub key_pad_targets : List ℕ
key_pad_targets = 112 ∷ 97 ∷ 100 ∷ 95 ∷ 116 ∷ 97 ∷ 114 ∷ 103 ∷ 101 ∷ 116 ∷ 115 ∷ []

-- "headers_target"
abbrev pub key_headers_target : List ℕ
key_headers_target =
    104 ∷ 101 ∷ 97 ∷ 100 ∷ 101 ∷ 114 ∷ 115 ∷ 95 ∷ 116 ∷ 97 ∷ 114 ∷ 103 ∷ 101 ∷ 116 ∷ []

-- "idle_sizes"
abbrev pub key_idle_sizes : List ℕ
key_idle_sizes = 105 ∷ 100 ∷ 108 ∷ 101 ∷ 95 ∷ 115 ∷ 105 ∷ 122 ∷ 101 ∷ 115 ∷ []

-- "idle_interval"
abbrev pub key_idle_interval : List ℕ
key_idle_interval = 105 ∷ 100 ∷ 108 ∷ 101 ∷ 95 ∷ 105 ∷ 110 ∷ 116 ∷ 101 ∷ 114 ∷ 118 ∷ 97 ∷ 108 ∷ []

-- "idle_threshold"
abbrev pub key_idle_threshold : List ℕ
key_idle_threshold =
    105 ∷ 100 ∷ 108 ∷ 101 ∷ 95 ∷ 116 ∷ 104 ∷ 114 ∷ 101 ∷ 115 ∷ 104 ∷ 111 ∷ 108 ∷ 100 ∷ []

-- "wnd_update_interval"
abbrev pub key_wnd_update_interval : List ℕ
key_wnd_update_interval =
    119 ∷ 110 ∷ 100 ∷ 95 ∷ 117 ∷ 112 ∷ 100 ∷ 97 ∷ 116 ∷ 101 ∷ 95 ∷ 105 ∷ 110 ∷ 116 ∷ 101 ∷ 114 ∷ 118
    ∷ 97 ∷ 108 ∷ []

-- `if len(xs) > 0`
abbrev pub unless_empty {ℓ} : {A : Type ℓ} → List A → List A → List A
unless_empty [] old = old
unless_empty (x ∷ xs) old = x ∷ xs

-- The fields, one key after the other; a key that is missing, or has no usable value, leaves its field.
unfoldable pub with_pad_targets : StringMap → RecordShaperConfig → RecordShaperConfig
unfolding parse_pad_targets
with_pad_targets m cfg =
    on_some (find key_pad_targets m) cfg
      λ s. record cfg { pad_targets = unless_empty (parse_pad_targets s) (cfg.pad_targets) }

unfoldable pub with_headers_target : StringMap → RecordShaperConfig → RecordShaperConfig
unfolding parse_range
with_headers_target m cfg =
    on_some (find key_headers_target m) cfg
      λ s. on_some (parse_range s) cfg λ t. record cfg { headers_target = t }

unfoldable pub with_idle_sizes : StringMap → RecordShaperConfig → RecordShaperConfig
unfolding parse_int_list
with_idle_sizes m cfg =
    on_some (find key_idle_sizes m) cfg
      λ s. record cfg { idle_sizes = unless_empty (parse_int_list s) (cfg.idle_sizes) }

unfoldable pub with_idle_interval : StringMap → RecordShaperConfig → RecordShaperConfig
unfolding parse_range
with_idle_interval m cfg = on_some (find key_idle_interval m) cfg λ s.
    on_some (parse_range s) cfg
      λ t. record cfg { idle_interval_lo = t.min; idle_interval_hi = t.max }

unfoldable pub with_idle_threshold : StringMap → RecordShaperConfig → RecordShaperConfig
with_idle_threshold m cfg =
    on_some (find key_idle_threshold m) cfg
      λ s. on_some (positive s) cfg λ v. record cfg { idle_threshold_ms = v }

unfoldable pub with_wnd_update_interval : StringMap → RecordShaperConfig → RecordShaperConfig
with_wnd_update_interval m cfg =
    on_some (find key_wnd_update_interval m) cfg
      λ s. on_some (positive s) cfg λ v. record cfg { wnd_update_interval = v }

unfoldable pub parse_record_shaper_config : StringMap → RecordShaperConfig
unfolding with_pad_targets with_headers_target with_idle_sizes with_idle_interval
    with_idle_threshold with_wnd_update_interval
parse_record_shaper_config m = with_wnd_update_interval m (
    with_idle_threshold m (
      with_idle_interval m (
        with_idle_sizes m
          (with_headers_target m (with_pad_targets m default_record_shaper_config)))))

-- What "pad_dist" gives, or the default bucket.
unfoldable pub pad_buckets_of : StringMap → List PaddingBucket
unfolding parse_buckets
pad_buckets_of m =
    unless_empty (on_some (find key_pad_dist m) [] parse_buckets)
      (record { min = 35; max = 35; weight = 100 } ∷ [])

-- NewPaddingFactory, over the checksum `fmt.Sprintf("%x", md5.Sum(rawScheme))`; none is nil.
module _ (md5_hex : List ℕ → List ℕ) where
  abbrev pub factory_of : List ℕ → StringMap → Option PaddingFactory
  factory_of raw [] = none
  factory_of raw (kv ∷ m) = some record {
    raw_scheme = raw;
    md5 = md5_hex raw;
    pad_buckets = pad_buckets_of (kv ∷ m);
    total_weight = total_of (pad_buckets_of (kv ∷ m));
    record_config = parse_record_shaper_config (kv ∷ m);
  }

  unfoldable pub new_padding_factory : List ℕ → Option PaddingFactory
  new_padding_factory raw = factory_of raw (string_map_from_bytes raw)

-- "pad_dist=35-35:100\npad_targets=14,14,17,17,17,45,22-30\nheaders_target=90-140\nwnd_update_interval=131072"
abbrev pub default_padding_scheme : List ℕ
default_padding_scheme =
    112 ∷ 97 ∷ 100 ∷ 95 ∷ 100 ∷ 105 ∷ 115 ∷ 116 ∷ 61 ∷ 51 ∷ 53 ∷ 45 ∷ 51 ∷ 53 ∷ 58 ∷ 49 ∷ 48 ∷ 48
    ∷ 10 ∷ 112 ∷ 97 ∷ 100 ∷ 95 ∷ 116 ∷ 97 ∷ 114 ∷ 103 ∷ 101 ∷ 116 ∷ 115 ∷ 61 ∷ 49 ∷ 52 ∷ 44 ∷ 49
    ∷ 52 ∷ 44 ∷ 49 ∷ 55 ∷ 44 ∷ 49 ∷ 55 ∷ 44 ∷ 49 ∷ 55 ∷ 44 ∷ 52 ∷ 53 ∷ 44 ∷ 50 ∷ 50 ∷ 45 ∷ 51 ∷ 48
    ∷ 10 ∷ 104 ∷ 101 ∷ 97 ∷ 100 ∷ 101 ∷ 114 ∷ 115 ∷ 95 ∷ 116 ∷ 97 ∷ 114 ∷ 103 ∷ 101 ∷ 116 ∷ 61 ∷ 57
    ∷ 48 ∷ 45 ∷ 49 ∷ 52 ∷ 48 ∷ 10 ∷ 119 ∷ 110 ∷ 100 ∷ 95 ∷ 117 ∷ 112 ∷ 100 ∷ 97 ∷ 116 ∷ 101 ∷ 95
    ∷ 105 ∷ 110 ∷ 116 ∷ 101 ∷ 114 ∷ 118 ∷ 97 ∷ 108 ∷ 61 ∷ 49 ∷ 51 ∷ 49 ∷ 48 ∷ 55 ∷ 50 ∷ []
