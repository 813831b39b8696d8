-- ===== src/Pool/Hooks.antt =====
-- session/client.go: the hooks that a session of the client runs. A call of a session records its hooks
-- as events, and `run_session` runs the new ones behind the call, in their order; no call that runs a
-- hook marks the connection broken after it.
use anytls_x.Base.{
  ℕ, ◌+◌, Bool, true, false, ◌&&◌, not, List, [], ◌∷◌, ◌++◌, length, drop, if◌then◌else◌, on_some,
}
use anytls_x.Session.Defs.{Net, P, Event, stream_hook, session_hook}
use anytls_x.Session.Timers.{int32_le}
use anytls_x.Pool.Idle.{IdleMap}
use anytls_x.Pool.Defs.{
  Node, Client, find_node, put_node, delete_seq, idle_key, decreased, change_node, net_of, with_net,
}

module _ (im : IdleMap) (clock : ℕ → ℕ) where
  -- `session.idleSince = time.Now()`, and the entry in the idle list.
  unfoldable pub put_idle : ℕ → Client im.T → Client im.T
  unfolding change_node
  put_idle seq c =
      let marked = change_node seq (λ nd. record nd { idle_since = clock c.reads }) c in
      record marked { reads = c.reads + 1; idle = im.insert (idle_key seq) seq c.idle }

  -- `go session.Close()`
  abbrev pub close_later : ℕ → Client im.T → Client im.T
  close_later seq c = record c { closing = c.closing ++ (seq ∷ []) }

  -- The end of streamDieHook, for a session without active streams.
  unfoldable pub settle : Bool → Bool → ℕ → Client im.T → Client im.T
  unfolding put_idle
  settle closed broken seq c =
      if not closed && not broken
      then (if c.dead then close_later seq c else put_idle seq c)
      else (if broken && not closed then close_later seq c else c)

  -- streamDieHook, on a session that is closed or not at that time.
  unfoldable pub stream_die_hook : Bool → ℕ → Client im.T → Client im.T
  unfolding settle change_node
  stream_die_hook closed seq c = on_some (find_node seq c.nodes) c λ nd.
      let less = change_node seq decreased c in
      if int32_le (decreased nd).active_streams 0
      then settle closed nd.sess.conn_broken seq less
      else less

  -- session.dieHook: the client forgets the session.
  unfoldable pub session_die_hook : ℕ → Client im.T → Client im.T
  session_die_hook seq c = record c {
    idle = im.remove (idle_key seq) c.idle;
    sessions = delete_seq seq c.sessions;
  }

  abbrev pub closes : Event → Bool
  closes session_hook = true
  closes ev = false

  unfoldable pub run_hook : Bool → ℕ → Event → Client im.T → Client im.T
  unfolding stream_die_hook session_die_hook
  run_hook closed seq (stream_hook sid) c = stream_die_hook closed seq c
  run_hook closed seq session_hook c = session_die_hook seq c
  run_hook closed seq ev c = c

  -- A session is closed from its own hook on.
  unfoldable pub run_hooks : Bool → ℕ → List Event → Client im.T → Client im.T
  unfolding run_hook
  run_hooks closed seq [] c = c
  run_hooks closed seq (ev ∷ evs) c =
      run_hooks (if closes ev then true else closed) seq evs (run_hook closed seq ev c)

  abbrev pub new_events : Net → Net → List Event
  new_events n m = drop (length n.sess.events) m.sess.events

  abbrev pub store : ℕ → Node → Net → Client im.T → Client im.T
  store seq nd m c = record c { nodes = put_node seq (with_net m nd) c.nodes; padding = m.padding }

  -- A call of a session, with the hooks that it runs; no session of that number, no call.
  unfoldable pub run_session : {A : Type 0} → ℕ → A → P A → Client im.T → A × Client im.T
  unfolding run_hooks
  run_session seq d f c =
      on_some (find_node seq c.nodes) (d, c)
        λ nd.
          let n = net_of c.padding nd in
          let r = f n in (r.0, run_hooks nd.sess.closed seq (new_events n r.1) (store seq nd r.1 c))
