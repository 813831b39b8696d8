-- ===== src/Tests/Schemes.antt =====
-- Padding schemes and settings, at concrete texts.
use anytls_x.Base.{ℕ, ◌≤◌, ◌^◌, ◌≡◌, refl, ◌⊎◌, some, List, [], ◌∷◌, arith, All, Any, bytes_eq}
use mathlib.Core.List.{cons≢nil, map}
use anytls_x.Text.Maps.{StringMap, find, string_map_from_bytes, to_bytes}
use anytls_x.Text.Strings.{split_last, trim_space}
use anytls_x.Text.Numbers.{positive}
use anytls_x.Text.Settings.{find-to_bytes, IsEntry, IsMap}
use anytls_x.Text.Written.{IsNumeral, value_from}
use anytls_x.Padding.Defs.{
  PaddingFactory, default_record_shaper_config, sample_padding_len, total_of,
}
use anytls_x.Padding.Parse.{
  new_padding_factory, default_padding_scheme, parse_pad_targets, pad_buckets_of,
  parse_record_shaper_config,
}
use anytls_x.Padding.Parsed.{IsParsed, new_padding_factory-IsParsed}
use anytls_x.Padding.Sampled.{IsSampled, weight_sum, sample_padding_len-IsSampled}
use anytls_x.Padding.Written.{
  fixed, between, texts_of, target_of, parse_pad_targets-texts_of, IsTargetText,
}
use anytls_x.Tests.Data.{calm, calm-IsRandom, start}

-- The checksum stands for itself.
abbrev same : List ℕ → List ℕ
same raw = raw

-- The scheme of the package parses into the built-in configuration.
abbrev default_factory : PaddingFactory
default_factory = record {
  raw_scheme = default_padding_scheme;
  md5 = default_padding_scheme;
  pad_buckets = record { min = 35; max = 35; weight = 100 } ∷ [];
  total_weight = 100;
  record_config = default_record_shaper_config;
}

default_parses : new_padding_factory same default_padding_scheme ≡ some default_factory
unfolding new_padding_factory string_map_from_bytes pad_buckets_of total_of
    parse_record_shaper_config find bytes_eq split_last trim_space positive
default_parses = refl

new_padding_factory-IsParsed_example : IsParsed same default_padding_scheme default_factory
new_padding_factory-IsParsed_example =
    new_padding_factory-IsParsed same default_padding_scheme default_factory default_parses

sample_padding_len-IsSampled_example :
    (((sample_padding_len calm default_factory start).0 ≡ 0)
      × (2 ^ 63 ≤ weight_sum default_factory.pad_buckets))
    ⊎ Any (IsSampled (sample_padding_len calm default_factory start).0) default_factory.pad_buckets
sample_padding_len-IsSampled_example =
    sample_padding_len-IsSampled same calm calm-IsRandom default_padding_scheme default_factory
      start default_parses

-- "14" and "22-30"
abbrev text_14 : List ℕ
text_14 = 49 ∷ 52 ∷ []

abbrev text_22 : List ℕ
text_22 = 50 ∷ 50 ∷ []

abbrev text_30 : List ℕ
text_30 = 51 ∷ 48 ∷ []

text_14-IsNumeral : IsNumeral text_14
unfolding value_from
text_14-IsNumeral = (cons≢nil, omega arith, omega arith)

text_22-IsNumeral : IsNumeral text_22
unfolding value_from
text_22-IsNumeral = (cons≢nil, omega arith, omega arith)

text_30-IsNumeral : IsNumeral text_30
unfolding value_from
text_30-IsNumeral = (cons≢nil, omega arith, omega arith)

parse_pad_targets-texts_of_example :
    parse_pad_targets (texts_of (fixed text_14) (between text_22 text_30 ∷ []))
    ≡ map target_of (fixed text_14 ∷ between text_22 text_30 ∷ [])
unfolding IsTargetText
parse_pad_targets-texts_of_example =
    parse_pad_targets-texts_of (fixed text_14) (between text_22 text_30 ∷ []) text_14-IsNumeral
      ((text_22-IsNumeral, text_30-IsNumeral), tt)

-- "v" and "2", "rs" and "1"
abbrev two_settings : StringMap
two_settings = (118 ∷ [], 50 ∷ []) ∷ (114 ∷ 115 ∷ [], 49 ∷ []) ∷ []

two_settings-IsEntry : All IsEntry two_settings
two_settings-IsEntry = omega arith

two_settings-IsMap : IsMap two_settings
unfolding find bytes_eq
two_settings-IsMap = (refl, (refl, tt))

find-to_bytes_example :
    find (114 ∷ 115 ∷ []) (string_map_from_bytes (to_bytes two_settings))
    ≡ find (114 ∷ 115 ∷ []) two_settings
find-to_bytes_example =
    find-to_bytes two_settings (114 ∷ 115 ∷ []) two_settings-IsEntry two_settings-IsMap
