-- ===== src/Pool/Cleanup.antt =====
-- session/client.go, idleCleanupExpTime. A time is behind expTime, which is the idle timeout before now,
-- when that timeout has passed since.
use anytls_x.Base.{ℕ, ◌+◌, Bool, true, false, not, List, [], ◌∷◌, ◌++◌, ltb, if◌then◌else◌, on_some}
use anytls_x.Env.{Env}
use anytls_x.Session.Timers.{int32_le}
use anytls_x.Pool.Idle.{IdleMap}
use anytls_x.Pool.Defs.{Node, Client, find_node, change_node}
use anytls_x.Pool.Calls.{unusable, broken_open, close_all}

-- What the loop keeps: the sessions that stay idle, counted, and those to close.
pub record Swept (T : Type 0) : Type 0 where
  pub active_count : ℕ
  pub to_close : List ℕ
  pub client : Client T

-- An idle session that the timeout has passed for.
abbrev pub is_stale : ℕ → ℕ → Node → Bool
is_stale now timeout nd = ltb (nd.idle_since + timeout) now

abbrev pub is_used : Node → Bool
is_used nd = not (int32_le nd.active_streams 0)

module _ (im : IdleMap) (clock : ℕ → ℕ) where
  abbrev pub drop_entry : ℕ → Client im.T → Client im.T
  drop_entry key c = record c { idle = im.remove key c.idle }

  abbrev pub keep : Swept im.T → Swept im.T
  keep a = record a { active_count = a.active_count + 1 }

  -- `session.idleSince = time.Now()`
  unfoldable pub refresh : ℕ → Client im.T → Client im.T
  unfolding change_node
  refresh seq c =
      let marked = change_node seq (λ nd. record nd { idle_since = clock c.reads }) c in
      record marked { reads = c.reads + 1 }

  abbrev pub drop_closing : Bool → ℕ → ℕ → Swept im.T → Swept im.T
  drop_closing closing key seq a = record a {
    to_close = if closing then a.to_close ++ (seq ∷ []) else a.to_close;
    client = drop_entry key a.client;
  }

  -- A session that the timeout has passed for is kept while fewer are than the minimum.
  unfoldable pub sweep_stale : ℕ → ℕ → Swept im.T → Swept im.T
  unfolding refresh
  sweep_stale key seq a =
      if ltb a.active_count a.client.min_idle_session
      then record a { active_count = a.active_count + 1; client = refresh seq a.client }
      else drop_closing true key seq a

  -- The round of the loop on one entry.
  unfoldable pub sweep_entry : ℕ → ℕ → ℕ → Node → Swept im.T → Swept im.T
  unfolding sweep_stale
  sweep_entry now key seq nd a =
      if unusable nd
      then drop_closing (broken_open nd) key seq a
      else (if is_used nd
          then drop_closing false key seq a
          else (if is_stale now a.client.idle_session_timeout nd
              then sweep_stale key seq a
              else keep a))

  -- The iterator has moved on before an entry is removed, so the loop passes every entry.
  unfoldable pub sweep : ℕ → List (ℕ × ℕ) → Swept im.T → Swept im.T
  unfolding sweep_entry
  sweep now [] a = a
  sweep now ((key, seq) ∷ m) a =
      sweep now m (on_some (find_node seq a.client.nodes) a λ nd. sweep_entry now key seq nd a)

  unfoldable pub sweep_idle : Client im.T → Swept im.T
  unfolding sweep
  sweep_idle c =
      let now = clock c.reads in
      sweep now (im.entries c.idle)
        (record { active_count = 0; to_close = []; client = record c { reads = c.reads + 1 } })

  unfoldable pub idle_cleanup : (ℕ → Env) → Client im.T → Client im.T
  unfolding sweep_idle
  idle_cleanup envs c =
      let swept = sweep_idle c in close_all im clock envs swept.to_close swept.client
