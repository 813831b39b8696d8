-- ===== src/Session/Timers.antt =====
-- session/session.go: the SYNACK timer of a stream that OpenStream opened, and the heartbeat. `active` is
-- the count of active streams that the client keeps for the session, an int32 as its 32 bits.
use anytls_x.Base.{
  ℕ, ◌*◌, ◌-◌, ◌/◌, ◌+◌, ◌%◌, ◌^◌, Bool, true, false, ◌||◌, ltb, leb, ◌==◌, if◌then◌else◌, on_error,
}
use anytls_x.Env.{Env, M, syn_ack_timeout, time_now}
use anytls_x.Rand.Defs.{fast_intn}
use anytls_x.Shaper.Defs.{second, millisecond}
use anytls_x.Frame.Defs.{cmd_heart_request, new_frame}
use anytls_x.Session.Defs.{
  Session, Stream, P, ◌>>=◌, ◌>>◌, pure, lift, modify, when, emit, log_syn_ack_timeouts,
}
use anytls_x.Session.Write.{write_control_frame, close}
use anytls_x.Session.Recv.{close_with_error}

abbrev pub syn_ack_timeout_alert_threshold : ℕ
syn_ack_timeout_alert_threshold = 5

-- `a <= b` on int32.
abbrev pub int32_le : ℕ → ℕ → Bool
int32_le a b = leb ((a + 2 ^ 31) % 2 ^ 32) ((b + 2 ^ 31) % 2 ^ 32)

unfoldable pub should_reap : ℕ → ℕ → Bool
should_reap active consecutive =
    int32_le active 1 || leb syn_ack_timeout_alert_threshold consecutive

-- s.consecutiveSynAckTimeouts.Add(1), on a uint32.
abbrev pub timeouts : Session → ℕ
timeouts s = (s.consecutive_syn_ack_timeouts + 1) % 2 ^ 32

-- The connection is marked broken before the stream closes.
abbrev pub timed_out : Bool → Session → Session
timed_out reap s = record s {
  consecutive_syn_ack_timeouts = timeouts s;
  conn_broken = s.conn_broken || reap;
}

abbrev pub reap_session : Env → ℕ → P (Unit {0})
reap_session e k = do
  when (leb syn_ack_timeout_alert_threshold k) (emit log_syn_ack_timeouts)
  closed_by ← close e
  pure tt

-- What the timer runs.
unfoldable pub fire_syn_timer : Env → ℕ → ℕ → Stream → P (Unit {0})
unfolding should_reap
fire_syn_timer e active sid st n =
    let reap = should_reap active (timeouts n.sess) in
    let m =
      (close_with_error e sid syn_ack_timeout st (record n { sess = timed_out reap n.sess })).1 in
    if reap then reap_session e (timeouts n.sess) m else (tt, m)

-- A heart response came within the quiet window.
unfoldable pub heard_lately : Env → ℕ → P Bool
heard_lately e quiet n =
    let last = n.sess.last_heart_resp in
    if last == 0 then (false, n) else (do t ← lift (time_now e); pure (ltb t (last + quiet))) n

-- The link is dead.
abbrev pub give_up : Env → P Bool
give_up e = do modify (λ s. record s { conn_broken = true }); closed_by ← close e; pure false

-- The end of a probe sent at `sent_at`: `blocked` is recvBlocked.
unfoldable pub judge : Env → Bool → ℕ → P Bool
judge e blocked sent_at n =
    if n.sess.closed
    then (false, n)
    else (if ltb n.sess.last_heart_resp sent_at
        then (if blocked then (true, n) else give_up e n)
        else (true, n))

-- The probe that is due: `stuck` says that its write has not come back when the timer for it runs out,
-- `meanwhile` is what happens to the session until the timer for the response runs out.
unfoldable pub ask : Env → Bool → P (Unit {0}) → ℕ → P Bool
unfolding judge
ask e blocked meanwhile sent_at = do
  r ← write_control_frame e (new_frame cmd_heart_request 0)
  on_error r.error (meanwhile >> judge e blocked sent_at) λ err. pure false

unfoldable pub send_probe : Env → Bool → Bool → P (Unit {0}) → P Bool
unfolding ask
send_probe e stuck blocked meanwhile = do
  sent_at ← lift (time_now e)
  (if stuck then give_up e else ask e blocked meanwhile sent_at)

unfoldable pub heartbeat_probe : Env → ℕ → Bool → Bool → P (Unit {0}) → P Bool
unfolding heard_lately send_probe
heartbeat_probe e quiet stuck blocked meanwhile n =
    if n.sess.closed || n.sess.conn_broken
    then (false, n)
    else (do
      lately ← heard_lately e quiet
      if lately || n.sess.buffering then pure true else send_probe e stuck blocked meanwhile)
        n

-- In nanoseconds: a value that is set, or its default.
abbrev pub or_default : ℕ → ℕ → ℕ
or_default value default = if ltb 0 value then value else default

unfoldable pub heartbeat_interval_value : ℕ → ℕ
heartbeat_interval_value interval = or_default interval (15 * second)

unfoldable pub heartbeat_quiet_window_value : ℕ → ℕ
heartbeat_quiet_window_value quiet = or_default quiet (10 * second)

unfoldable pub heartbeat_timeout_value : ℕ → ℕ
heartbeat_timeout_value timeout = or_default timeout (5 * second)

-- A quarter of jitter to either side, in whole milliseconds.
unfoldable pub next_heartbeat_interval : Env → ℕ → M ℕ
unfolding heartbeat_interval_value
next_heartbeat_interval e interval w =
    let base = heartbeat_interval_value interval / millisecond in
    let jitter = base / 4 in
    let r = fast_intn e (2 * jitter + 1) w in ((base - jitter + r.0) * millisecond, r.1)
