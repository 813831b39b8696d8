-- ===== src/Text/Strings.antt =====
-- strings.Split, strings.SplitN, strings.LastIndex and strings.TrimSpace on the bytes of a string, as
-- padding/padding.go and util/string_map.go use them.
use anytls_x.Base.{
  ℕ, zero, suc, ◌-◌, Bool, true, false, ◌&&◌, Option, none, some, List, [], ◌∷◌, ◌++◌, ◌==◌, length,
  if◌then◌else◌,
}
use mathlib.Core.List.{reverse, map}

-- strings.Split(s, sep) for a separator of one byte: never empty.
unfoldable pub split : ℕ → List ℕ → List (List ℕ)
split sep [] = [] ∷ []
split sep (c ∷ s) =
    let rest = split sep s in
    if c == sep then [] ∷ rest else (elim rest [ [] ↦ (c ∷ []) ∷ [] | l ∷ ls ↦ (c ∷ l) ∷ ls ])

-- strings.SplitN(s, sep, 2), when it has two parts.
unfoldable pub split_two : ℕ → List ℕ → Option (List ℕ × List ℕ)
split_two sep [] = none
split_two sep (c ∷ s) =
    let rest = split_two sep s in
    if c == sep then some ([], s) else (elim rest [ none ↦ none | some (k, v) ↦ some (c ∷ k, v) ])

-- The separator and the next string, until there is none.
unfoldable pub join_rest : ℕ → List (List ℕ) → List ℕ
join_rest sep [] = []
join_rest sep (s ∷ ss) = sep ∷ s ++ join_rest sep ss

-- strings.Join(ss, sep) for a separator of one byte.
unfoldable pub join : ℕ → List (List ℕ) → List ℕ
unfolding join_rest
join sep [] = []
join sep (s ∷ ss) = s ++ join_rest sep ss

-- What is before strings.LastIndex(s, sep) and what is behind it, when it is not negative.
unfoldable pub split_last : ℕ → List ℕ → Option (List ℕ × List ℕ)
split_last sep [] = none
split_last sep (c ∷ s) =
    let rest = split_last sep s in
    elim rest [ none ↦ if c == sep then some ([], s) else none | some (k, v) ↦ some (c ∷ k, v) ]

-- The encodings of the runes that unicode.IsSpace accepts.
abbrev pub spaces : List (List ℕ)
spaces =
    (9 ∷ [])
    ∷ (10 ∷ [])
    ∷ (11 ∷ [])
    ∷ (12 ∷ [])
    ∷ (13 ∷ [])
    ∷ (32 ∷ [])
    ∷ (194 ∷ 133 ∷ [])
    ∷ (194 ∷ 160 ∷ [])
    ∷ (225 ∷ 154 ∷ 128 ∷ [])
    ∷ (226 ∷ 128 ∷ 128 ∷ [])
    ∷ (226 ∷ 128 ∷ 129 ∷ [])
    ∷ (226 ∷ 128 ∷ 130 ∷ [])
    ∷ (226 ∷ 128 ∷ 131 ∷ [])
    ∷ (226 ∷ 128 ∷ 132 ∷ [])
    ∷ (226 ∷ 128 ∷ 133 ∷ [])
    ∷ (226 ∷ 128 ∷ 134 ∷ [])
    ∷ (226 ∷ 128 ∷ 135 ∷ [])
    ∷ (226 ∷ 128 ∷ 136 ∷ [])
    ∷ (226 ∷ 128 ∷ 137 ∷ [])
    ∷ (226 ∷ 128 ∷ 138 ∷ [])
    ∷ (226 ∷ 128 ∷ 168 ∷ [])
    ∷ (226 ∷ 128 ∷ 169 ∷ [])
    ∷ (226 ∷ 128 ∷ 175 ∷ [])
    ∷ (226 ∷ 129 ∷ 159 ∷ [])
    ∷ (227 ∷ 128 ∷ 128 ∷ [])
    ∷ []

unfoldable pub is_prefix : List ℕ → List ℕ → Bool
is_prefix [] s = true
is_prefix (p ∷ ps) [] = false
is_prefix (p ∷ ps) (c ∷ s) = p == c && is_prefix ps s

-- The number of bytes of the encoding that the string starts with, or 0.
unfoldable pub space_size : List (List ℕ) → List ℕ → ℕ
unfolding is_prefix
space_size [] s = 0
space_size (p ∷ ps) s = if is_prefix p s then length p else space_size ps s

-- The string without the encodings at its start, the first `skip` bytes being of one.
unfoldable pub trim_front : List (List ℕ) → ℕ → List ℕ → List ℕ
unfolding space_size
trim_front ps skip [] = []
trim_front ps (suc skip) (c ∷ s) = trim_front ps skip s
trim_front ps zero (c ∷ s) =
    let n = space_size ps (c ∷ s) in
    let rest = trim_front ps (n - 1) s in if n == 0 then c ∷ s else rest

-- strings.TrimSpace: the end is trimmed from behind.
unfoldable pub trim_space : List ℕ → List ℕ
unfolding trim_front
trim_space s = reverse (trim_front (map reverse spaces) 0 (reverse (trim_front spaces 0 s)))
