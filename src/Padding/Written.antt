-- ===== src/Padding/Written.antt =====
-- padding/padding.go: texts of targets, and what parsePadTargets reads from them.
use anytls_x.Base.{
  ℕ, refl, ◌≤◌, ◌≡◌, ◌≢◌, ◌∙◌, ap, List, [], ◌∷◌, ◌++◌, some, arith, All, All-append, All-map,
}
use mathlib.Core.List.{map}
use anytls_x.Text.Strings.{split, trim_space}
use anytls_x.Text.Written.{
  IsDigit, IsNumeral, IsPlain, Without, value, positive-value, split-append, split-one,
  split_two-append, split_two-none, trim_space-plain,
}
use anytls_x.Padding.Defs.{PadTarget, target}
use anytls_x.Padding.Parse.{collect, bounds, in_order, parse_pad_target, parse_pad_targets}

-- A target in a scheme: one numeral, or two with a dash.
pub data TargetText : Type 0 where
  fixed : List ℕ → TargetText
  between : List ℕ → List ℕ → TargetText

unfoldable pub IsTargetText : TargetText → Type 0
IsTargetText (fixed v) = IsNumeral v
IsTargetText (between lo hi) = IsNumeral lo × IsNumeral hi

pub text_of : TargetText → List ℕ
text_of (fixed v) = v
text_of (between lo hi) = lo ++ 45 ∷ hi

-- With commas between them.
pub texts_of : TargetText → List TargetText → List ℕ
texts_of t [] = text_of t
texts_of t (u ∷ ts) = text_of t ++ 44 ∷ texts_of u ts

-- What a target stands for.
pub target_of : TargetText → PadTarget
target_of (fixed v) = target (value v) (value v)
target_of (between lo hi) = in_order (value lo) (value hi)

IsPlain-digits : (s : List ℕ) → All IsDigit s → All IsPlain s
IsPlain-digits s h = All-map IsDigit IsPlain s (λ c d. omega arith) h

digits-Without : (sep : ℕ) (s : List ℕ) → sep ≤ 47 → All IsDigit s → Without sep s
digits-Without sep s l h = All-map IsDigit (λ c. c ≢ sep) s (λ c d. omega arith) h

text_of-IsPlain : (t : TargetText) → IsTargetText t → All IsPlain (text_of t)
unfolding text_of IsTargetText
text_of-IsPlain (fixed v) h = IsPlain-digits v (h.1)
text_of-IsPlain (between lo hi) h =
    All-append IsPlain lo (45 ∷ hi) (IsPlain-digits lo (h.0.1))
      (omega arith, IsPlain-digits hi (h.1.1))

text_of-Without : (t : TargetText) → IsTargetText t → Without 44 (text_of t)
unfolding text_of IsTargetText
text_of-Without (fixed v) h = digits-Without 44 v (omega arith) (h.1)
text_of-Without (between lo hi) h =
    All-append (λ c. c ≢ 44) lo (45 ∷ hi) (digits-Without 44 lo (omega arith) (h.0.1))
      (omega arith, digits-Without 44 hi (omega arith) (h.1.1))

parse_pad_target-text_of :
    (t : TargetText) → IsTargetText t → parse_pad_target (text_of t) ≡ some (target_of t)
unfolding parse_pad_target bounds text_of target_of IsTargetText
parse_pad_target-text_of (fixed v) h =
    rw (split_two-none 45 v (digits-Without 45 v (omega arith) (h.1)), positive-value v h) refl
parse_pad_target-text_of (between lo hi) h =
    rw
      (
        split_two-append 45 lo hi (digits-Without 45 lo (omega arith) (h.0.1)),
        positive-value lo (h.0),
        positive-value hi (h.1),
      )
      refl

split-texts_of :
    (t : TargetText) (ts : List TargetText)
    → IsTargetText t
    → All IsTargetText ts
    → split 44 (texts_of t ts) ≡ map text_of (t ∷ ts)
unfolding texts_of
split-texts_of t [] h k = split-one 44 (text_of t) (text_of-Without t h)
split-texts_of t (u ∷ ts) h k =
    split-append 44 (text_of t) (texts_of u ts) (text_of-Without t h)
    ∙ ap (◌∷◌ (text_of t)) (split-texts_of u ts (k.0) (k.1))

collect-texts :
    (ts : List TargetText)
    → All IsTargetText ts
    → collect (λ part. parse_pad_target (trim_space part)) (map text_of ts) ≡ map target_of ts
unfolding collect
collect-texts [] h = refl
collect-texts (t ∷ ts) h =
    rw
      (
        trim_space-plain (text_of t) (text_of-IsPlain t (h.0)),
        parse_pad_target-text_of t (h.0),
        collect-texts ts (h.1),
      )
      refl

-- A comma-separated text of numerals and of pairs of numerals with a dash, each a positive int, is
-- read by parsePadTargets as the targets that they stand for, in their order, the two bounds of a
-- pair put in order.
pub parse_pad_targets-texts_of :
    (t : TargetText) (ts : List TargetText)
    → IsTargetText t
    → All IsTargetText ts
    → parse_pad_targets (texts_of t ts) ≡ map target_of (t ∷ ts)
unfolding parse_pad_targets
parse_pad_targets-texts_of t ts h k =
    ap (collect λ part. parse_pad_target (trim_space part)) (split-texts_of t ts h k)
    ∙ collect-texts (t ∷ ts) (h, k)
