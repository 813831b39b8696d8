-- ===== src/Rand/Bounds.antt =====
-- util/rand.go: what the callers rely on.
use anytls_x.Base.{
  ℕ, zero, suc, ◌+◌, ◌*◌, ◌/◌, ◌%◌, ◌<◌, ◌≡◌, ◌∙◌, refl, List, arith, length, length-append, ltb,
  All, All-append, inl, inr, Bool-cases,
}
use anytls_x.Env.{Env, IsRandom, World}
use anytls_x.Rand.Defs.{fast_intn, le_bytes, fill_words, fill_tail, fill_random}

abbrev pub IsByte : ℕ → Type 0
IsByte b = b < 256

-- What a call leaves alone: all but the number of draws.
pub record OnlyDraws (v w : World) : Type 0 where
  pub sent_same : w.sent ≡ v.sent
  pub writes_same : w.writes ≡ v.writes
  pub reads_same : w.reads ≡ v.reads
  pub deadline_same : w.deadline ≡ v.deadline
  pub shut_same : w.shut ≡ v.shut

pub fast_intn-lt : (e : Env) → IsRandom e → (n : ℕ) (w : World) → 0 < n → (fast_intn e n w).0 < n
unfolding fast_intn
fast_intn-lt e r n w h = ground (arith, r.int_n-lt w.draws n)

pub fast_intn-OnlyDraws : (e : Env) (n : ℕ) (w : World) → OnlyDraws w (fast_intn e n w).1
unfolding fast_intn
fast_intn-OnlyDraws e n w = ground arith

pub length-le_bytes : (k v : ℕ) → length (le_bytes k v) ≡ k
unfolding le_bytes
length-le_bytes zero v = refl
length-le_bytes (suc k) v = omega (arith, length-le_bytes k (v / 256))

le_bytes-IsByte : (k v : ℕ) → All IsByte (le_bytes k v)
unfolding le_bytes
le_bytes-IsByte zero v = tt
le_bytes-IsByte (suc k) v = (omega arith, le_bytes-IsByte k (v / 256))

-- A run of bytes of the given length that changed nothing but the generator.
pub record Filled (n : ℕ) (v : World) (r : List ℕ × World) : Type 0 where
  pub filled_length : length (r.0) ≡ n
  pub filled_bytes : All IsByte (r.0)
  pub filled_world : OnlyDraws v (r.1)

pub OnlyDraws-refl : (w : World) → OnlyDraws w w
OnlyDraws-refl w = ground arith

pub OnlyDraws-trans : {u v w : World} → OnlyDraws u v → OnlyDraws v w → OnlyDraws u w
OnlyDraws-trans a b = record {
  sent_same = b.sent_same ∙ a.sent_same;
  writes_same = b.writes_same ∙ a.writes_same;
  reads_same = b.reads_same ∙ a.reads_same;
  deadline_same = b.deadline_same ∙ a.deadline_same;
  shut_same = b.shut_same ∙ a.shut_same;
}

pub fill_words-Filled : (e : Env) (k : ℕ) (w : World) → Filled (8 * k) w (fill_words e k w)
unfolding fill_words
fill_words-Filled e zero w = record {
  filled_length = omega arith;
  filled_bytes = tt;
  filled_world = OnlyDraws-refl w;
}
fill_words-Filled e (suc k) w =
    let later = fill_words e k (record w { draws = w.draws + 1 }) in
    let ih = fill_words-Filled e k (record w { draws = w.draws + 1 }) in
    record {
      filled_length = omega (
        arith,
        length-append (le_bytes 8 (e.uint64 w.draws)) (later.0),
        length-le_bytes 8 (e.uint64 w.draws),
        ih.filled_length,
      );
      filled_bytes =
          All-append IsByte (le_bytes 8 (e.uint64 w.draws)) (later.0)
            (le_bytes-IsByte 8 (e.uint64 w.draws)) ih.filled_bytes;
      filled_world = ground (arith, ih.filled_world);
    }

fill_tail-Filled : (e : Env) (n : ℕ) (w : World) → Filled n w (fill_tail e n w)
unfolding fill_tail
fill_tail-Filled e n w = elim (Bool-cases (ltb 0 n)) [
  | inl some_left ↦ rw some_left (record {
    filled_length = length-le_bytes n _;
    filled_bytes = le_bytes-IsByte n _;
    filled_world = ground arith;
  })
  | inr none_left ↦
      rw none_left (record {
        filled_length = ground arith;
        filled_bytes = tt;
        filled_world = OnlyDraws-refl w;
      })
]

pub fill_random-Filled : (e : Env) (n : ℕ) (w : World) → Filled n w (fill_random e n w)
unfolding fill_random
fill_random-Filled e n w = record {
  filled_length = omega (
    arith,
    length-append (fill_words e (n / 8) w).0 (fill_tail e (n % 8) mid).0,
    first.filled_length,
    last.filled_length,
  );
  filled_bytes =
      All-append IsByte (fill_words e (n / 8) w).0 (fill_tail e (n % 8) mid).0 first.filled_bytes
        last.filled_bytes;
  filled_world = ground (arith, first.filled_world, last.filled_world);
}
  where
    mid : World
    mid = (fill_words e (n / 8) w).1

    first : Filled (8 * (n / 8)) w (fill_words e (n / 8) w)
    first = fill_words-Filled e (n / 8) w

    last : Filled (n % 8) mid (fill_tail e (n % 8) mid)
    last = fill_tail-Filled e (n % 8) mid
