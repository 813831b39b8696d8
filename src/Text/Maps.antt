-- ===== src/Text/Maps.antt =====
-- util/string_map.go: the settings and the padding scheme as maps of strings.
use anytls_x.Base.{ℕ, Option, none, some, List, [], ◌∷◌, ◌++◌, bytes_eq, if◌then◌else◌}
use mathlib.Core.List.{map}
use anytls_x.Text.Strings.{split, split_two, join}

-- A Go map from strings to strings; the front entry of a key counts.
abbrev pub StringMap : Type 0
StringMap = List (List ℕ × List ℕ)

-- The loop of StringMapFromBytes, with the map filled so far: a later entry replaces an earlier one.
unfoldable pub fill_map : List (List ℕ) → StringMap → StringMap
unfolding split_two
fill_map [] m = m
fill_map (l ∷ ls) m = elim (split_two 61 l) [
  | none ↦ fill_map ls m
  | some kv ↦ fill_map ls (kv ∷ m)
]

unfoldable pub string_map_from_bytes : List ℕ → StringMap
unfolding fill_map split
string_map_from_bytes b = fill_map (split 10 b) []

-- `m[key]`: a missing key gives the empty string.
unfoldable pub lookup : List ℕ → StringMap → List ℕ
lookup key [] = []
lookup key ((k, v) ∷ m) = if bytes_eq k key then v else lookup key m

-- ToBytes, the entries in the order that Go's range takes.
unfoldable pub line_of : List ℕ × List ℕ → List ℕ
line_of kv = kv.0 ++ 61 ∷ kv.1

unfoldable pub to_bytes : StringMap → List ℕ
unfolding join line_of
to_bytes m = join 10 (map line_of m)

-- `v, ok := m[key]`.
unfoldable pub find : List ℕ → StringMap → Option (List ℕ)
find key [] = none
find key ((k, v) ∷ m) = if bytes_eq k key then some v else find key m
