-- ===== src/Pool/Opening.antt =====
-- session/client.go, openOn: the count of the active streams on every way out.
use anytls_x.Base.{
  ℕ, suc, ◌^◌, ◌<◌, ◌≡◌, refl, sym, ap, ◌∙◌, subst, true, Option, none, some, arith, inl, inr,
  on_some, on_error, if◌then◌else◌,
}
use anytls_x.Env.{Env, Error, closed_pipe}
use anytls_x.Session.Defs.{Session, Net, find_stream}
use anytls_x.Session.Write.{bury}
use anytls_x.Session.Opening.{next_stream_id, opened_stream, registered, open_stream}
use anytls_x.Session.Defs.{new_stream_obj}
use anytls_x.Session.Outcome.{Kept, OpenOutcome, open_stream-OpenOutcome}
use anytls_x.Pool.Idle.{IdleMap}
use anytls_x.Pool.Defs.{
  Node, Client, find_node, put_node, increased, decreased, change_node, net_of,
}
use anytls_x.Pool.Hooks.{run_session}
use anytls_x.Pool.Calls.{has_died, roll_back, open_on}
use anytls_x.Pool.Nodes.{find_node-put_node}
use anytls_x.Pool.Counted.{hook_count, waits}
use anytls_x.Pool.Dead.{bury-has_died, hook_count-put_stream}
use anytls_x.Pool.Rolled.{Holds, changed}
use anytls_x.Pool.Ran.{ran, left, hookless, recount, buried_holds}

registered_kept :
    (s : Session)
    → ((registered true s).events ≡ s.events) × ((registered true s).hooked ≡ s.hooked)
unfolding registered
registered_kept s = (refl, refl)

buried_empty : (s u : Session) → s ≡ bury u → hook_count s.streams ≡ 0
buried_empty s u h = ap (λ x. hook_count x.streams) h ∙ unfold bury hook_count in refl

opened_died :
    (s u : Session) → Kept (registered true s) u → has_died (bury u) (next_stream_id s) ≡ true
unfolding registered opened_stream
opened_died s u k =
    bury-has_died u (next_stream_id s) (opened_stream true s) s.streams k.streams_same
      (unfold new_stream_obj in refl)

module _ (im : IdleMap) (clock : ℕ → ℕ) (envs : ℕ → Env) where
  -- The client counts for the session the streams whose hooks are still to run.
  abbrev pub Counts : Client im.T → ℕ → Type 0
  Counts c seq =
      (nd : Node) × (find_node seq c.nodes ≡ some nd)
      × (nd.active_streams ≡ hook_count nd.sess.streams)

  Holds-Counts :
      (c : Client im.T) (seq : ℕ) (s : Session)
      → Holds im clock c seq s (hook_count s.streams)
      → Counts c seq
  Holds-Counts c seq s (nd, has, same, count) =
      (nd, has, count ∙ ap (λ x. hook_count x.streams) (sym same))

  -- openOn behind the call of OpenStream.
  abbrev ended :
      ℕ → (Option ℕ × Option Error) × Client im.T → (Option ℕ × Option Error) × Client im.T
  ended seq r =
      on_error (r.0.1) (r.0, r.1)
        λ err. ((none, some err), roll_back im clock envs seq (r.0.0) (r.1))

  -- What OpenStream may leave: a stream counted, none counted yet taken back, or all taken back.
  abbrev Opened : ℕ → (Option ℕ × Option Error) × Client im.T → Type 0
  Opened seq ((o, none), d) = (s : Session) × Holds im clock d seq s (hook_count s.streams)
  Opened seq ((none, some err), d) =
      (s : Session) × Holds im clock d seq s (suc (hook_count s.streams))
      × (suc (hook_count s.streams) < 2 ^ 31)
  Opened seq ((some sid, some err), d) =
      (s : Session) × Holds im clock d seq s (hook_count s.streams) × (has_died s sid ≡ true)

  ended-Counts :
      (seq : ℕ) (r : (Option ℕ × Option Error) × Client im.T)
      → Opened seq r
      → Counts (ended seq r).1 seq
  unfolding roll_back
  ended-Counts seq ((o, none), d) (s, h) = Holds-Counts d seq s h
  ended-Counts seq ((none, some err), d) (s, (nd, has, same, count), small) =
      subst (λ x. Counts x seq) (sym (changed im clock decreased seq nd d has))
        (
          decreased nd,
          find_node-put_node seq (decreased nd) d.nodes,
          omega (arith, count, small, ap (λ x. hook_count x.streams) same),
        )
  ended-Counts seq ((some sid, some err), d) (s, (nd, has, same, count), dead) =
      subst (λ x. Counts x seq)
        (sym (
          ap (λ o. on_some o d λ x. if has_died x.sess sid then d else change_node seq decreased d)
            has
          ∙ ap (λ x. if has_died x sid then d else change_node seq decreased d) same
          ∙ ap (λ b. if b then d else change_node seq decreased d) dead))
        (Holds-Counts d seq s (nd, has, same, count))

  opened_waits : (s : Session) → waits (opened_stream true s) ≡ true
  unfolding opened_stream
  opened_waits s = unfold new_stream_obj in refl

  registered_count :
      (s : Session)
      → find_stream (next_stream_id s) s.streams ≡ none
      → hook_count (registered true s).streams ≡ suc (hook_count s.streams)
  unfolding registered
  registered_count s h =
      hook_count-put_stream (next_stream_id s) (opened_stream true s) s.streams h (opened_waits s)

  -- What the call of OpenStream and the hooks behind it leave.
  opened_lem :
      (seq : ℕ) (nd : Node) (c : Client im.T) (r : (Option ℕ × Option Error) × Net)
      → find_node seq c.nodes ≡ some nd
      → nd.active_streams ≡ suc (hook_count nd.sess.streams)
      → suc (hook_count nd.sess.streams) < 2 ^ 31
      → nd.sess.hooked ≡ true
      → find_stream (next_stream_id nd.sess) nd.sess.streams ≡ none
      → OpenOutcome true (net_of c.padding nd) r
      → Opened seq (r.0, left im clock seq nd r.1 c)
  opened_lem seq nd c ((o, none), m) has count small hook fresh (inl (_, bad, _)) = absurd cc
  opened_lem seq nd c ((none, some err), m) has count small hook fresh (inl (_, _, same)) = (
    m.sess,
    recount im clock (left im clock seq nd m c) seq m.sess nd.active_streams _
        (hookless im clock seq nd c m (ap (λ n. n.sess.events) same))
        (count ∙ ap (λ n. suc (hook_count n.sess.streams)) (sym same)),
    omega (arith, small, ap (λ n. hook_count n.sess.streams) same),
  )
  opened_lem seq nd c ((some sid, some err), m) has count small hook fresh (inl (bad, _, _)) =
      absurd cc
  opened_lem seq nd c ((o, none), m) has count small hook fresh (inr (alive, _, k)) = (
    m.sess,
    recount im clock (left im clock seq nd m c) seq m.sess nd.active_streams _
        (hookless im clock seq nd c m (k.events_same ∙ (registered_kept nd.sess).0))
        (count ∙ sym (registered_count nd.sess fresh) ∙ ap hook_count (sym k.streams_same)),
  )
  opened_lem seq nd c ((none, some err), m) has count small hook fresh (inr (alive, bad, _)) =
      absurd cc
  opened_lem seq nd c ((some sid, some err), m) has count small hook fresh
        (inr (alive, eq, (u, k, made))) =
      (
        m.sess,
        recount im clock (left im clock seq nd m c) seq m.sess 0 _
            (buried_holds im clock seq nd c m u alive (omega (arith, count, small))
              (count ∙ sym (registered_count nd.sess fresh) ∙ ap hook_count (sym k.streams_same))
              (k.events_same ∙ (registered_kept nd.sess).0)
              (k.hooked_same ∙ (registered_kept nd.sess).1 ∙ hook) made).0
            (sym (buried_empty m.sess u made)),
        ap (λ x. has_died x sid) made
            ∙ ap (λ o. has_died (bury u) (on_some o 0 λ x. x)) eq
            ∙ opened_died nd.sess u k,
      )

  -- When the count of active streams of a session is the number of its streams whose die hook is
  -- still to run, the count is below 2^31 - 1, the session has its die hook and the next stream id
  -- is free, then openOn leaves such a count, whether the stream opens, is refused, or fails on its
  -- SYN and closes the session.
  pub open_on-Counts :
      (seq : ℕ) (nd : Node) (c : Client im.T)
      → find_node seq c.nodes ≡ some nd
      → nd.active_streams ≡ hook_count nd.sess.streams
      → suc nd.active_streams < 2 ^ 31
      → nd.sess.hooked ≡ true
      → find_stream (next_stream_id nd.sess) nd.sess.streams ≡ none
      → Counts (open_on im clock envs seq c).1 seq
  unfolding open_on
  open_on-Counts seq nd c has count small hook fresh =
      let d = record c { nodes = put_node seq (increased nd) c.nodes } in
      let has' = find_node-put_node seq (increased nd) c.nodes in
      let n = net_of c.padding nd in
      let r = open_stream (envs seq) true n in
      let f = open_stream (envs seq) true in
      subst (λ x. Counts (ended seq (run_session im clock seq (none, some closed_pipe) f x)).1 seq)
        (sym (changed im clock increased seq nd c has))
        (subst (λ x. Counts (ended seq x).1 seq)
          (sym (ran im clock f (none, some closed_pipe) seq (increased nd) d has'))
          (ended-Counts seq (r.0, left im clock seq (increased nd) r.1 d)
            (opened_lem seq (increased nd) d r has' (omega (arith, count, small))
              (omega (arith, count, small)) hook fresh
              (open_stream-OpenOutcome (envs seq) true n))))
