-- ===== src/Base/Tests.antt =====
-- Boolean tests on the native numbers and on byte strings, and the conditional.
use Prim.Native.Nat.{ℕ, ◌≤◌, ◌<◌, compare, Ordering}
use mathlib.Core.Path.{◌≡◌, refl}
use mathlib.Core.Logic.{◌⊎◌, inl, inr}
use mathlib.Core.Bool.{Bool, true, false, ◌&&◌}
use mathlib.Core.Option.{Option, none, some}
use mathlib.Core.List.{List, [], ◌∷◌}
use native.Mathlib.Omega.{arith}

-- These compute to `compare`, which `ground` and `grind` read with no lemma listed.
abbrev pub ltb : ℕ → ℕ → Bool
ltb a b = elim (compare a b) [ Ordering.lt ↦ true | _ ↦ false ]

abbrev pub leb : ℕ → ℕ → Bool
leb a b = elim (compare a b) [ Ordering.gt ↦ false | _ ↦ true ]

infix 50 ◌==◌
abbrev pub ◌==◌ : ℕ → ℕ → Bool
a == b = elim (compare a b) [ Ordering.eq ↦ true | _ ↦ false ]

infix 1 if◌then◌else◌
abbrev pub if◌then◌else◌ {ℓ} : {A : Type ℓ} → Bool → A → A → A
if true then x else y = x
if false then x else y = y

-- Equality of Go strings.
unfoldable pub bytes_eq : List ℕ → List ℕ → Bool
bytes_eq [] [] = true
bytes_eq [] (y ∷ ys) = false
bytes_eq (x ∷ xs) [] = false
bytes_eq (x ∷ xs) (y ∷ ys) = x == y && bytes_eq xs ys

pub bytes_eq_refl : (xs : List ℕ) → bytes_eq xs xs ≡ true
unfolding bytes_eq
bytes_eq_refl [] = refl
bytes_eq_refl (x ∷ xs) = ground (arith, bytes_eq_refl xs)

pub bytes_eq→eq : (xs ys : List ℕ) → bytes_eq xs ys ≡ true → xs ≡ ys
unfolding bytes_eq
bytes_eq→eq [] [] h = refl
bytes_eq→eq [] (y ∷ ys) h = ground arith
bytes_eq→eq (x ∷ xs) [] h = ground arith
bytes_eq→eq (x ∷ xs) (y ∷ ys) h = ground (arith, bytes_eq→eq xs ys)

pub ltb→lt : (a b : ℕ) → ltb a b ≡ true → a < b
ltb→lt a b h = ground arith

pub leb→le : (a b : ℕ) → leb a b ≡ true → a ≤ b
leb→le a b h = ground arith

-- To split on a computed value and keep the equation.
pub Bool-cases : (b : Bool) → (b ≡ true) ⊎ (b ≡ false)
Bool-cases true = inl refl
Bool-cases false = inr refl

pub Option-cases {ℓ} : {A : Type ℓ} (o : Option A) → (o ≡ none) ⊎ ((a : A) × (o ≡ some a))
Option-cases none = inl refl
Option-cases (some a) = inr (a, refl)

-- A property of a conditional, from its two branches.
pub if_cases {ℓ κ} :
    {A : Type ℓ} (Q : A → Type κ) (c : Bool) (x y : A)
    → (c ≡ true → Q x)
    → (c ≡ false → Q y)
    → Q (if c then x else y)
if_cases Q true x y f g = f refl
if_cases Q false x y f g = g refl

pub ifs_cases {ℓ κ μ} :
    {A : Type ℓ} {B : Type κ} (Q : A → B → Type μ) (c : Bool) (x y : A) (u v : B)
    → (c ≡ true → Q x u)
    → (c ≡ false → Q y v)
    → Q (if c then x else y) (if c then u else v)
ifs_cases Q true x y u v f g = f refl
ifs_cases Q false x y u v f g = g refl

-- `if err != nil`, and its rule.
abbrev pub on_error {ℓ κ} : {E : Type ℓ} {A : Type κ} → Option E → A → (E → A) → A
on_error none x f = x
on_error (some err) x f = f err

pub on_error_cases {ℓ κ μ} :
    {E : Type ℓ} {A : Type κ} (Q : A → Type μ) (o : Option E) (x : A) (f : E → A)
    → (o ≡ none → Q x)
    → ((err : E) → o ≡ some err → Q (f err))
    → Q (on_error o x f)
on_error_cases Q none x f h k = h refl
on_error_cases Q (some err) x f h k = k err refl

-- A lookup that may find nothing, and its rule.
abbrev pub on_some {ℓ κ} : {E : Type ℓ} {A : Type κ} → Option E → A → (E → A) → A
on_some none x f = x
on_some (some a) x f = f a

pub on_some_cases {ℓ κ μ} :
    {E : Type ℓ} {A : Type κ} (Q : A → Type μ) (o : Option E) (x : A) (f : E → A)
    → (o ≡ none → Q x)
    → ((a : E) → o ≡ some a → Q (f a))
    → Q (on_some o x f)
on_some_cases Q none x f h k = h refl
on_some_cases Q (some a) x f h k = k a refl

-- A property of what an option holds, if anything.
abbrev pub WhenSome {ℓ κ} : {A : Type ℓ} → (A → Type κ) → Option A → Type κ
WhenSome P none = Unit
WhenSome P (some a) = P a

pub WhenSome-on_some {ℓ κ μ ν} :
    {A : Type ℓ} {B : Type κ} (P : A → Type μ) (Q : B → Type ν) (o : Option A) (f : A → Option B)
    → WhenSome P o
    → ((a : A) → P a → WhenSome Q (f a))
    → WhenSome Q (on_some o none f)
WhenSome-on_some P Q none f h k = tt
WhenSome-on_some P Q (some a) f h k = k a h
