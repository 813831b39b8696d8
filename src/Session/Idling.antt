-- ===== src/Session/Idling.antt =====
-- session/session.go, idleLoop: its start and its rounds, each one what follows the wait for an interval.
use anytls_x.Base.{
  ℕ, ◌+◌, ◌*◌, Bool, true, false, ◌&&◌, ◌||◌, not, none, some, List, if◌then◌else◌, on_some,
  on_error,
}
use anytls_x.Env.{Env, time_now, set_write_deadline, conn_write}
use anytls_x.Shaper.Defs.{second, maybe_refresh_config, idle_enabled, build_idle_frame}
use anytls_x.Session.Defs.{Session, P, ◌>>=◌, ◌>>◌, pure, lift, modify}
use anytls_x.Session.Write.{close}
use anytls_x.Session.Timers.{give_up}

-- The shaper's configuration is brought up to date before the loop decides whether to run.
unfoldable pub idle_start : P Bool
idle_start n =
    let s = n.sess in
    let fresh = maybe_refresh_config n.padding s.shaper in
    (idle_enabled fresh, record n { sess = record s { shaper = fresh } })

abbrev pub wrote_at : ℕ → Session → Session
wrote_at t s = let rs = s.shaper in record s { shaper = record rs { last_write = t } }

-- A frame goes out past the shaper; a failure breaks the connection.
unfoldable pub send_idle : Env → List ℕ → P Bool
send_idle e frame = do
  now ← lift (time_now e)
  lift (set_write_deadline (some (now + 5 * second)))
  r ← lift (conn_write e frame)
  lift (set_write_deadline none)
  on_error r.error (do t ← lift (time_now e); modify (wrote_at t); pure true) λ err. give_up e

-- A round answers whether the loop goes on.
unfoldable pub idle_round : Env → P Bool
unfolding send_idle
idle_round e n =
    let s = n.sess in
    let built = build_idle_frame e n.padding s.shaper n.world in
    let m = record n { sess = record s { shaper = built.0.0 }; world = built.1 } in
    if s.closed || s.conn_broken
    then (if s.conn_broken && not s.closed
        then (do closed_by ← close e; pure false) n
        else (false, n))
    else (if s.buffering
        then (true, n)
        else on_some built.0.1 (true, m) λ frame. send_idle e frame m)
