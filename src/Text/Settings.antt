-- ===== src/Text/Settings.antt =====
-- util/string_map.go: StringMapFromBytes on what ToBytes writes.
use anytls_x.Base.{
  ℕ, ◌≡◌, ◌≢◌, ◌∙◌, refl, sym, subst, on_some, ap, true, false, Option, none, some, List, [], ◌∷◌,
  arith, All, All-append, bytes_eq, bytes_eq→eq, Bool-cases, inl, inr,
}
use mathlib.Core.List.{map, reverse, reverse_aux}
use anytls_x.Text.Strings.{join, split, split_two}
use anytls_x.Text.Written.{Without, split-join, split_two-append}
use anytls_x.Text.Maps.{StringMap, line_of, fill_map, string_map_from_bytes, to_bytes, find}

-- An entry that a line can hold: no "=" in the key and no line feed.
abbrev pub IsEntry : List ℕ × List ℕ → Type 0
IsEntry kv = Without 61 kv.0 × Without 10 kv.0 × Without 10 kv.1

line_of-Without : (kv : List ℕ × List ℕ) → IsEntry kv → Without 10 (line_of kv)
unfolding line_of
line_of-Without kv h = All-append (λ c. c ≢ 10) (kv.0) (61 ∷ kv.1) (h.1) (omega arith, h.2)

fill_map-line :
    (kv : List ℕ × List ℕ) (ls : List (List ℕ)) (acc : StringMap)
    → IsEntry kv
    → fill_map (line_of kv ∷ ls) acc ≡ fill_map ls (kv ∷ acc)
unfolding fill_map line_of
fill_map-line kv ls acc h =
    ap (λ o. elim o [ none ↦ fill_map ls acc | some x ↦ fill_map ls (x ∷ acc) ])
      (split_two-append 61 (kv.0) (kv.1) (h.0))

lines-Without : (m : StringMap) → All IsEntry m → All (Without 10) (map line_of m)
lines-Without [] h = tt
lines-Without (kv ∷ m) h = (line_of-Without kv (h.0), lines-Without m (h.1))

-- The loop over the lines of the entries puts them in front, one after the other.
fill_map-lines :
    (m acc : StringMap) → All IsEntry m → fill_map (map line_of m) acc ≡ reverse_aux m acc
unfolding fill_map
fill_map-lines [] acc h = refl
fill_map-lines (kv ∷ m) acc h =
    fill_map-line kv (map line_of m) acc (h.0) ∙ fill_map-lines m (kv ∷ acc) (h.1)

read_back : (m : StringMap) → All IsEntry m → string_map_from_bytes (to_bytes m) ≡ reverse m
unfolding string_map_from_bytes to_bytes
read_back [] h = unfold join split fill_map split_two in refl
read_back (kv ∷ m) h =
    ap (λ x. fill_map x [])
      (split-join 10 (line_of kv) (map line_of m) (line_of-Without kv (h.0))
        (lines-Without m (h.1)))
    ∙ fill_map-lines (kv ∷ m) [] h

-- No key has two entries.
abbrev pub IsMap : StringMap → Type 0
IsMap [] = Unit
IsMap (kv ∷ m) = (find (kv.0) m ≡ none) × IsMap m

found_first :
    (kv : List ℕ × List ℕ) (acc : StringMap) (key : List ℕ)
    → bytes_eq (kv.0) key ≡ true
    → find key (kv ∷ acc) ≡ some (kv.1)
unfolding find
found_first kv acc key h = rw h refl

found_behind :
    (kv : List ℕ × List ℕ) (acc : StringMap) (key : List ℕ)
    → bytes_eq (kv.0) key ≡ false
    → find key (kv ∷ acc) ≡ find key acc
unfolding find
found_behind kv acc key h = rw h refl

-- What the reversed entries do not have is looked up behind them.
find-reverse_aux :
    (key : List ℕ) (m acc : StringMap)
    → IsMap m
    → find key (reverse_aux m acc) ≡ on_some (find key m) (find key acc) some
unfolding find
find-reverse_aux key [] acc h = refl
find-reverse_aux key (kv ∷ m) acc h = elim (Bool-cases (bytes_eq (kv.0) key)) [
  | inl same ↦
      let lacks : find key m ≡ none =
        subst (λ k. find k m ≡ none) (bytes_eq→eq (kv.0) key same) (h.0) in
      find-reverse_aux key m (kv ∷ acc) (h.1)
      ∙ ap (λ o. on_some o (find key (kv ∷ acc)) some) lacks
      ∙ found_first kv acc key same
      ∙ sym (ap (λ o. on_some o (find key acc) some) (found_first kv m key same))
  | inr other ↦
      find-reverse_aux key m (kv ∷ acc) (h.1)
      ∙ ap (λ x. on_some (find key m) x some) (found_behind kv acc key other)
      ∙ sym (ap (λ o. on_some o (find key acc) some) (found_behind kv m key other))
]

on_some-none : (o : Option (List ℕ)) → on_some o none some ≡ o
on_some-none none = refl
on_some-none (some v) = refl

-- What ToBytes writes of a map, its entries in any order, is read by StringMapFromBytes as a map
-- that has the same value, or none, under every key, when no key holds "=" or a line feed and no
-- value a line feed.
pub find-to_bytes :
    (m : StringMap) (key : List ℕ)
    → All IsEntry m
    → IsMap m
    → find key (string_map_from_bytes (to_bytes m)) ≡ find key m
find-to_bytes m key h k =
    ap (find key) (read_back m h)
    ∙ (find-reverse_aux key m [] k ∙ unfold find in on_some-none (find key m))
