-- ===== src/Text/Numbers.antt =====
-- strconv.Atoi and the tests and conversions of its result.
use anytls_x.Base.{
  ℕ, zero, suc, ◌+◌, ◌-◌, ◌*◌, ◌%◌, ◌^◌, Bool, true, false, ◌&&◌, Option, none, some, List, [], ◌∷◌,
  leb, ◌==◌, if◌then◌else◌,
}

unfoldable pub digits : List ℕ → ℕ → Option ℕ
digits [] acc = some acc
digits (c ∷ s) acc =
    let rest = digits s (acc * 10 + (c - 48)) in if leb 48 c && leb c 57 then rest else none

abbrev pub at_most : ℕ → Option ℕ → Option ℕ
at_most limit none = none
at_most limit (some v) = if leb v limit then some v else none

unfoldable pub magnitude : List ℕ → ℕ → Option ℕ
unfolding digits
magnitude [] limit = none
magnitude (c ∷ s) limit = at_most limit (digits (c ∷ s) 0)

abbrev pub signed : Bool → Option ℕ → Option (Bool × ℕ)
signed minus none = none
signed minus (some v) = some (minus, v)

-- strconv.Atoi: the sign, and the magnitude; an error for what is no 64-bit number.
unfoldable pub atoi : List ℕ → Option (Bool × ℕ)
unfolding magnitude
atoi [] = none
atoi (c ∷ s) =
    if c == 45
    then signed true (magnitude s (2 ^ 63))
    else (if c == 43
        then signed false (magnitude s (2 ^ 63 - 1))
        else signed false (magnitude (c ∷ s) (2 ^ 63 - 1)))

-- uint32(v).
unfoldable pub uint32_of : Bool × ℕ → ℕ
uint32_of (false, v) = v % 2 ^ 32
uint32_of (true, v) = (2 ^ 32 - v % 2 ^ 32) % 2 ^ 32

-- `err == nil && v > 0`, with that v.
abbrev pub positive_of : Option (Bool × ℕ) → Option ℕ
positive_of none = none
positive_of (some (true, v)) = none
positive_of (some (false, zero)) = none
positive_of (some (false, suc v)) = some (suc v)

unfoldable pub positive : List ℕ → Option ℕ
unfolding atoi
positive s = positive_of (atoi s)
