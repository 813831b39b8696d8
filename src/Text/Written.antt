-- ===== src/Text/Written.antt =====
-- Strings as a scheme has them: numerals, parts behind separators, nothing to trim.
use anytls_x.Base.{
  ℕ, zero, suc, ◌+◌, ◌-◌, ◌*◌, ◌^◌, ◌||◌, ltb, ◌≤◌, ◌<◌, ◌≡◌, ◌≢◌, ◌∙◌, refl, ap, Bool, true, false,
  none, some, List, [], ◌∷◌, ◌++◌, arith, leb, ◌==◌, ◌&&◌, append-nil, All, All-reverse_aux,
}
use mathlib.Core.List.{reverse, reverse-reverse, map}
use anytls_x.Text.Strings.{
  join, join_rest, split, split_two, spaces, is_prefix, space_size, trim_front, trim_space,
}
use anytls_x.Text.Numbers.{digits, at_most, magnitude, atoi, positive, positive_of}
use anytls_x.Text.Bounds.{IsInt}

abbrev pub IsDigit : ℕ → Type 0
IsDigit c = (48 ≤ c) × (c ≤ 57)

-- The number that decimal digits stand for, behind `acc`.
unfoldable pub value_from : ℕ → List ℕ → ℕ
value_from acc [] = acc
value_from acc (c ∷ s) = value_from (acc * 10 + (c - 48)) s

abbrev pub value : List ℕ → ℕ
value s = value_from 0 s

-- A decimal numeral of a positive int.
abbrev pub IsNumeral : List ℕ → Type 0
IsNumeral s = (s ≢ []) × All IsDigit s × IsInt (value s)

digits-value_from : (s : List ℕ) (acc : ℕ) → All IsDigit s → digits s acc ≡ some (value_from acc s)
unfolding digits value_from
digits-value_from [] acc h = refl
digits-value_from (c ∷ s) acc h = ground (arith, digits-value_from s (acc * 10 + (c - 48)) h.1, h.0)

at_most-le : (limit v : ℕ) → v ≤ limit → at_most limit (some v) ≡ some v
at_most-le limit v h = ground arith

positive_of-pos : (v : ℕ) → 0 < v → positive_of (some (false, v)) ≡ some v
positive_of-pos zero h = absurd (omega arith)
positive_of-pos (suc v) h = refl

magnitude-value :
    (c : ℕ) (s : List ℕ) → IsNumeral (c ∷ s) → magnitude (c ∷ s) (2 ^ 63 - 1) ≡ some (value (c ∷ s))
unfolding magnitude
magnitude-value c s h =
    ap (at_most (2 ^ 63 - 1)) (digits-value_from (c ∷ s) 0 (h.1))
    ∙ at_most-le (2 ^ 63 - 1) (value (c ∷ s)) (omega arith)

beq-ne : (a b : ℕ) → a ≢ b → (a == b) ≡ false
beq-ne a b h = ground arith

pub positive-value : (s : List ℕ) → IsNumeral s → positive s ≡ some (value s)
unfolding positive atoi
positive-value [] h = absurd (h.0 refl)
positive-value (c ∷ s) h =
    rw (beq-ne c 45 (omega arith), beq-ne c 43 (omega arith), magnitude-value c s h)
      (positive_of-pos (value (c ∷ s)) (omega arith))

-- No separator in a part.
abbrev pub Without : ℕ → List ℕ → Type 0
Without sep s = All (λ c. c ≢ sep) s

pub split_two-append :
    (sep : ℕ) (s t : List ℕ) → Without sep s → split_two sep (s ++ sep ∷ t) ≡ some (s, t)
unfolding split_two
split_two-append sep [] t h = ground arith
split_two-append sep (c ∷ s) t h = rw (beq-ne c sep (h.0), split_two-append sep s t (h.1)) refl

pub split_two-none : (sep : ℕ) (s : List ℕ) → Without sep s → split_two sep s ≡ none
unfolding split_two
split_two-none sep [] h = refl
split_two-none sep (c ∷ s) h = rw (beq-ne c sep (h.0), split_two-none sep s (h.1)) refl

pub split-append :
    (sep : ℕ) (s t : List ℕ) → Without sep s → split sep (s ++ sep ∷ t) ≡ s ∷ split sep t
unfolding split
split-append sep [] t h = ground arith
split-append sep (c ∷ s) t h = rw (beq-ne c sep (h.0), split-append sep s t (h.1)) refl

pub split-one : (sep : ℕ) (s : List ℕ) → Without sep s → split sep s ≡ s ∷ []
unfolding split
split-one sep [] h = refl
split-one sep (c ∷ s) h = rw (beq-ne c sep (h.0), split-one sep s (h.1)) refl

split-join_rest :
    (sep : ℕ) (s : List ℕ) (ss : List (List ℕ))
    → Without sep s
    → All (Without sep) ss
    → split sep (s ++ join_rest sep ss) ≡ s ∷ ss
unfolding join_rest
split-join_rest sep s [] h k = ap (split sep) (append-nil s) ∙ split-one sep s h
split-join_rest sep s (t ∷ ss) h k =
    split-append sep s (t ++ join_rest sep ss) h ∙ ap (◌∷◌ s) (split-join_rest sep t ss (k.0) (k.1))

-- Strings without the separator, joined with it, are split into the same strings.
pub split-join :
    (sep : ℕ) (s : List ℕ) (ss : List (List ℕ))
    → Without sep s
    → All (Without sep) ss
    → split sep (join sep (s ∷ ss)) ≡ s ∷ ss
unfolding join
split-join sep s ss h k = split-join_rest sep s ss h k

-- A visible byte of ASCII.
abbrev pub IsPlain : ℕ → Type 0
IsPlain c = (33 ≤ c) × (c < 127)

-- Every encoding begins with a byte that is not plain.
all_odd : List (List ℕ) → Bool
all_odd [] = true
all_odd ([] ∷ ps) = false
all_odd ((p ∷ q) ∷ ps) = (ltb p 33 || leb 127 p) && all_odd ps

space_size-IsPlain :
    (ps : List (List ℕ)) (c : ℕ) (s : List ℕ)
    → all_odd ps ≡ true
    → IsPlain c
    → space_size ps (c ∷ s) ≡ 0
unfolding space_size is_prefix all_odd
space_size-IsPlain [] c s h k = refl
space_size-IsPlain ([] ∷ ps) c s h k = ground arith
space_size-IsPlain ((p ∷ q) ∷ ps) c s h k = ground (arith, space_size-IsPlain ps c s)

trim_front-plain :
    (ps : List (List ℕ)) (s : List ℕ) → all_odd ps ≡ true → All IsPlain s → trim_front ps 0 s ≡ s
unfolding trim_front
trim_front-plain ps [] f h = refl
trim_front-plain ps (c ∷ s) f h = rw (space_size-IsPlain ps c s f (h.0)) refl

pub trim_space-plain : (s : List ℕ) → All IsPlain s → trim_space s ≡ s
unfolding trim_space all_odd
trim_space-plain s h =
    ap (λ x. reverse (trim_front (map reverse spaces) 0 (reverse x)))
      (trim_front-plain spaces s refl h)
    ∙ ap reverse
        (trim_front-plain (map reverse spaces) (reverse s) refl (All-reverse_aux IsPlain s [] h tt))
    ∙ reverse-reverse s
