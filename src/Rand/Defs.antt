-- ===== src/Rand/Defs.antt =====
-- The functions of util/rand.go. FillRandom writes into a slice; here it returns the bytes that it
-- writes into a slice of the given length.
use anytls_x.Base.{ℕ, zero, suc, ◌/◌, ◌%◌, List, [], ◌∷◌, ◌++◌, ltb, leb, if◌then◌else◌}
use anytls_x.Env.{Env, M, ◌>>=◌, pure, draw_int_n, draw_uint64}

-- mrand.IntN panics on n ≤ 0, which the guard keeps from it.
unfoldable pub fast_intn : Env → ℕ → M ℕ
unfolding draw_int_n
fast_intn e n = if leb n 1 then pure 0 else draw_int_n e n

-- The k low bytes of a number, lowest first: PutUint64 at k = 8, and the tail loop below that.
unfoldable pub le_bytes : ℕ → ℕ → List ℕ
le_bytes zero v = []
le_bytes (suc k) v = (v % 256) ∷ le_bytes k (v / 256)

-- The loop over whole words, `len(b) >= 8`, which makes `len(b) / 8` rounds.
unfoldable pub fill_words : Env → ℕ → M (List ℕ)
unfolding draw_uint64 le_bytes
fill_words e zero = pure []
fill_words e (suc k) = do v ← draw_uint64 e; rest ← fill_words e k; pure (le_bytes 8 v ++ rest)

unfoldable pub fill_tail : Env → ℕ → M (List ℕ)
unfolding draw_uint64 le_bytes
fill_tail e n = if ltb 0 n then (do v ← draw_uint64 e; pure (le_bytes n v)) else pure []

unfoldable pub fill_random : Env → ℕ → M (List ℕ)
unfolding fill_words fill_tail
fill_random e n = do words ← fill_words e (n / 8); rest ← fill_tail e (n % 8); pure (words ++ rest)
