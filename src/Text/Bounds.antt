-- ===== src/Text/Bounds.antt =====
-- strconv.Atoi: the range of what it accepts.
use anytls_x.Base.{
  ℕ, zero, suc, leb→le, ◌-◌, ◌^◌, ◌≤◌, ◌<◌, Bool, true, false, Option, none, some, List, [], ◌∷◌,
  arith, leb, ◌==◌, if_cases, WhenSome,
}
use anytls_x.Text.Numbers.{at_most, magnitude, atoi, signed, positive, positive_of}

-- A positive int.
abbrev pub IsInt : ℕ → Type 0
IsInt v = (0 < v) × (v < 2 ^ 63)

-- What Atoi can answer: an int.
AtoiRange : Bool × ℕ → Type 0
AtoiRange (false, v) = v < 2 ^ 63
AtoiRange (true, v) = v ≤ 2 ^ 63

at_most_le : (limit : ℕ) (o : Option ℕ) → WhenSome (λ v. v ≤ limit) (at_most limit o)
at_most_le limit none = tt
at_most_le limit (some v) =
    if_cases (WhenSome (λ v. v ≤ limit)) (leb v limit) _ _ (λ h. leb→le v limit h) λ _. tt

magnitude_le : (s : List ℕ) (limit : ℕ) → WhenSome (λ v. v ≤ limit) (magnitude s limit)
unfolding magnitude
magnitude_le [] limit = tt
magnitude_le (c ∷ s) limit = at_most_le limit _

signed_minus : (o : Option ℕ) → WhenSome (λ v. v ≤ 2 ^ 63) o → WhenSome AtoiRange (signed true o)
unfolding AtoiRange
signed_minus none h = tt
signed_minus (some v) h = h

signed_plus :
    (o : Option ℕ) → WhenSome (λ v. v ≤ 2 ^ 63 - 1) o → WhenSome AtoiRange (signed false o)
unfolding AtoiRange
signed_plus none h = tt
signed_plus (some v) h = omega arith

atoi-AtoiRange : (s : List ℕ) → WhenSome AtoiRange (atoi s)
unfolding atoi
atoi-AtoiRange [] = tt
atoi-AtoiRange (c ∷ s) =
    if_cases (WhenSome AtoiRange) (c == 45) _ _ (λ _. signed_minus _ (magnitude_le s (2 ^ 63)))
      λ _.
        if_cases (WhenSome AtoiRange) (c == 43) _ _
          (λ _. signed_plus _ (magnitude_le s (2 ^ 63 - 1)))
          λ _. signed_plus _ (magnitude_le (c ∷ s) (2 ^ 63 - 1))

positive_of-IsInt : (o : Option (Bool × ℕ)) → WhenSome AtoiRange o → WhenSome IsInt (positive_of o)
unfolding AtoiRange
positive_of-IsInt none h = tt
positive_of-IsInt (some (true, v)) h = tt
positive_of-IsInt (some (false, zero)) h = tt
positive_of-IsInt (some (false, suc v)) h = (omega arith, h)

-- What passes `err == nil && v > 0` is a positive int.
pub positive-IsInt : (s : List ℕ) → WhenSome IsInt (positive s)
unfolding positive
positive-IsInt s = positive_of-IsInt (atoi s) (atoi-AtoiRange s)
