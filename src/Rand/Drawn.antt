-- ===== src/Rand/Drawn.antt =====
-- util/rand.go, FillRandom: which byte of which draw stands where.
use anytls_x.Base.{
  ℕ, zero, suc, ◌+◌, ◌*◌, ◌/◌, ◌%◌, ◌<◌, ◌≡◌, refl, sym, ap, ◌∙◌, List, [], ◌∷◌, ◌++◌, arith,
  length, get_or, ltb, inl, inr, Bool-cases,
}
use anytls_x.Env.{Env, World}
use anytls_x.Rand.Defs.{le_bytes, fill_words, fill_tail, fill_random}
use anytls_x.Rand.Bounds.{OnlyDraws, length-le_bytes, fill_words-Filled, fill_random-Filled}

-- The i-th byte of a number, the lowest first.
unfoldable pub byte_at : ℕ → ℕ → ℕ
byte_at zero v = v % 256
byte_at (suc i) v = byte_at i (v / 256)

get_or-append-front :
    (xs ys : List ℕ) (i : ℕ) → i < length xs → get_or (xs ++ ys) i 0 ≡ get_or xs i 0
get_or-append-front [] ys i h = absurd (omega arith)
get_or-append-front (x ∷ xs) ys zero h = refl
get_or-append-front (x ∷ xs) ys (suc i) h = get_or-append-front xs ys i (omega arith)

get_or-append-back :
    (xs ys : List ℕ) (i m : ℕ) → i ≡ length xs + m → get_or (xs ++ ys) i 0 ≡ get_or ys m 0
get_or-append-back [] ys i m h = ap (λ x. get_or ys x 0) (omega (arith, h))
get_or-append-back (x ∷ xs) ys zero m h = absurd (omega (arith, h))
get_or-append-back (x ∷ xs) ys (suc i) m h = get_or-append-back xs ys i m (omega (arith, h))

le_bytes-byte_at : (k i v : ℕ) → i < k → get_or (le_bytes k v) i 0 ≡ byte_at i v
unfolding le_bytes byte_at
le_bytes-byte_at zero i v h = absurd (omega arith)
le_bytes-byte_at (suc k) zero v h = refl
le_bytes-byte_at (suc k) (suc i) v h = le_bytes-byte_at k i (v / 256) (omega arith)

-- The j-th byte of the k-th word, which is the draw `d`.
fill_words-byte_at :
    (e : Env) (n k j i d : ℕ) (w : World)
    → k < n
    → j < 8
    → i ≡ 8 * k + j
    → d ≡ w.draws + k
    → get_or (fill_words e n w).0 i 0 ≡ byte_at j (e.uint64 d)
unfolding fill_words
fill_words-byte_at e zero k j i d w h l at this = absurd (omega arith)
fill_words-byte_at e (suc n) zero j i d w h l at this =
    let v = e.uint64 w.draws in
    let rest = (fill_words e n (record w { draws = w.draws + 1 })).0 in
    let same : i ≡ j = omega (arith, at) in
    let drawn : w.draws ≡ d = omega (arith, this) in
    get_or-append-front (le_bytes 8 v) rest i (omega (arith, length-le_bytes 8 v, same, l))
    ∙ le_bytes-byte_at 8 i v (omega (arith, same, l))
    ∙ ap (λ x. byte_at x v) same
    ∙ ap (λ x. byte_at j (e.uint64 x)) drawn
fill_words-byte_at e (suc n) (suc k) j i d w h l at this =
    let v = e.uint64 w.draws in
    let w' = record w { draws = w.draws + 1 } in
    get_or-append-back (le_bytes 8 v) (fill_words e n w').0 i (8 * k + j)
      (omega (arith, length-le_bytes 8 v, at))
    ∙ fill_words-byte_at e n k j (8 * k + j) d w' (omega arith) l refl (omega (arith, this))

fill_words-draws : (e : Env) (n : ℕ) (w : World) → (fill_words e n w).1.draws ≡ w.draws + n
unfolding fill_words
fill_words-draws e zero w = omega arith
fill_words-draws e (suc n) w =
    omega (arith, fill_words-draws e n (record w { draws = w.draws + 1 }))

fill_tail-byte_at :
    (e : Env) (n j : ℕ) (w : World)
    → j < n
    → get_or (fill_tail e n w).0 j 0 ≡ byte_at j (e.uint64 w.draws)
unfolding fill_tail
fill_tail-byte_at e n j w h = elim (Bool-cases (ltb 0 n)) [
  | inl left ↦ rw left (le_bytes-byte_at n j (e.uint64 w.draws) h)
  | inr done ↦ absurd (ground (arith, done, h))
]

fill_random-byte_at :
    (e : Env) (n k j : ℕ) (w : World)
    → 8 * k + j < n
    → j < 8
    → get_or (fill_random e n w).0 (8 * k + j) 0 ≡ byte_at j (e.uint64 (w.draws + k))
unfolding fill_random
fill_random-byte_at e n k j w h l =
    let words = fill_words e (n / 8) w in
    let tail = fill_tail e (n % 8) words.1 in
    let size = (fill_words-Filled e (n / 8) w).filled_length in
    elim (Bool-cases (ltb k (n / 8))) [
      | inl inside ↦
          get_or-append-front words.0 tail.0 (8 * k + j) (ground (arith, size, inside, l))
          ∙ fill_words-byte_at e (n / 8) k j (8 * k + j) (w.draws + k) w (ground (arith, inside)) l
              refl refl
      | inr behind ↦
          let last : k ≡ n / 8 = ground (arith, behind, h) in
          get_or-append-back words.0 tail.0 (8 * k + j) j (omega (arith, size, last))
          ∙ fill_tail-byte_at e (n % 8) j words.1 (omega (arith, last, h))
          ∙ ap (λ x. byte_at j (e.uint64 x))
              (fill_words-draws e (n / 8) w ∙ ap (λ x. w.draws + x) (sym last))
    ]

-- FillRandom of n bytes gives n bytes, of which byte 8k + j is byte j, the lowest first, of the
-- k-th 64-bit draw, also in the tail of fewer than eight bytes, and changes nothing but the
-- generator.
pub fill_random_draws :
    (e : Env) (n k j : ℕ) (w : World)
    → 8 * k + j < n
    → j < 8
    → (length (fill_random e n w).0 ≡ n)
      × (get_or (fill_random e n w).0 (8 * k + j) 0 ≡ byte_at j (e.uint64 (w.draws + k)))
      × OnlyDraws w (fill_random e n w).1
fill_random_draws e n k j w h l =
    let f = fill_random-Filled e n w in
    (f.filled_length, fill_random-byte_at e n k j w h l, f.filled_world)
