-- ===== src/Env.antt =====
-- What the program asks of its surroundings, and the state that those calls change: the generator
-- behind util/rand.go (math/rand/v2), the clock (time.Now), and one net.Conn. A call of a function
-- of an `Env` is numbered, so that a run is a function of the environment.
pub mod Wire
use anytls_x.Base.{
  ℕ, zero, suc, ◌+◌, ◌≤◌, ◌<◌, ◌^◌, ◌≡◌, refl, Bool, true, false, Option, none, some, List, [], ◌∷◌,
  ◌++◌, arith, length, take, ltb, if◌then◌else◌,
}

-- An error of Go, by where it comes from.
pub data Error : Type 0 where
  closed_pipe : Error
  write_failed : Error
  frame_too_large : ℕ → Error
  deadline_exceeded : Error
  net_closed : Error
  end_of_file : Error
  syn_ack_timeout : Error
  remote : List ℕ → Error
  scheme_too_large : ℕ → Error
  no_record_shaper : Error
  dial_failed : Error

-- `int_n i n` is the i-th draw of mrand.IntN(n), `uint64 i` the i-th of mrand.Uint64(), `clock i`
-- the i-th reading of time.Now() in nanoseconds. `fault i` is the outcome of the i-th Write of the
-- connection: `none` when it takes all bytes, `some k` when it fails after k bytes at most. `try_lock i`
-- is the outcome of the i-th TryLock of the connection's lock, and `close_error` what Close of the open
-- connection answers.
pub record Env : Type 0 where
  pub int_n : ℕ → ℕ → ℕ
  pub uint64 : ℕ → ℕ
  pub clock : ℕ → ℕ
  pub fault : ℕ → Option ℕ
  pub try_lock : ℕ → Bool
  pub close_error : Option Error

-- The documented range of math/rand/v2.
pub record IsRandom (e : Env) : Type 0 where
  pub int_n-lt : (i n : ℕ) → 0 < n → e.int_n i n < n
  pub uint64-lt : (i : ℕ) → e.uint64 i < 2 ^ 64

-- How many calls were made so far, the bytes that the connection took, its write deadline (`none`
-- is Go's zero time: no deadline) and whether it was closed.
pub record World : Type 0 where
  pub draws : ℕ
  pub reads : ℕ
  pub writes : ℕ
  pub locks : ℕ
  pub sent : List ℕ
  pub deadline : Option ℕ
  pub shut : Bool

abbrev pub M : Type 0 → Type 0
M A = World → A × World

infixl 5 ◌>>=◌ ◌>>◌
abbrev pub ◌>>=◌ : {A B : Type 0} → M A → (A → M B) → M B
◌>>=◌ m f w = f (m w).0 (m w).1

abbrev pub ◌>>◌ : {B : Type 0} → M (Unit {0}) → M B → M B
◌>>◌ m k w = k (m w).1

abbrev pub pure : {A : Type 0} → A → M A
pure a w = (a, w)

module _ (e : Env) where
  unfoldable pub draw_int_n : ℕ → M ℕ
  draw_int_n n w = (e.int_n w.draws n, record w { draws = w.draws + 1 })

  unfoldable pub draw_uint64 : M ℕ
  draw_uint64 w = (e.uint64 w.draws, record w { draws = w.draws + 1 })

  unfoldable pub time_now : M ℕ
  time_now w = (e.clock w.reads, record w { reads = w.reads + 1 })

  unfoldable pub conn_try_lock : M Bool
  conn_try_lock w = (e.try_lock w.locks, record w { locks = w.locks + 1 })

-- Go's (n, err) of a write.
pub record Written : Type 0 where
  pub n : ℕ
  pub error : Option Error

unfoldable pub set_write_deadline : Option ℕ → M (Unit {0})
set_write_deadline t w = (tt, record w { deadline = t })

-- conn.Write: on success all of `b` is on the wire, otherwise a prefix of it. A closed connection
-- takes nothing.
unfoldable pub deliver : Option ℕ → List ℕ → M Written
deliver none b w =
    (record { n = length b; error = none }, record w { writes = w.writes + 1; sent = w.sent ++ b })
deliver (some k) b w = (
  record { n = length (take k b); error = some write_failed },
  record w { writes = w.writes + 1; sent = w.sent ++ take k b },
)

unfoldable pub conn_write : Env → List ℕ → M Written
unfolding deliver
conn_write e b w = deliver (if w.shut then some 0 else e.fault w.writes) b w

unfoldable pub conn_close : Env → M (Option Error)
conn_close e w = (e.close_error, record w { shut = true })
