-- ===== src/Pool/Ran.antt =====
-- session/client.go: what a call of a session and the hooks behind it leave.
use anytls_x.Base.{
  ℕ, ◌^◌, ◌<◌, ◌≡◌, refl, sym, ap, ◌∙◌, subst, Bool, true, false, some, List, [], ◌∷◌, ◌++◌, arith,
  on_some, if◌then◌else◌, length, drop, drop-length-append, append-nil,
}
use anytls_x.Session.Defs.{Session, Net, Event, P, session_hook, close_streams}
use anytls_x.Session.Write.{bury}
use anytls_x.Pool.Idle.{IdleMap}
use anytls_x.Pool.Defs.{Node, Client, find_node, net_of, with_net}
use anytls_x.Pool.Hooks.{session_die_hook, run_hooks, run_session, new_events, store}
use anytls_x.Pool.Nodes.{find_node-put_node}
use anytls_x.Pool.Counted.{hook_count, close_streams-TornAll}
use anytls_x.Pool.Rolled.{Holds, Settled, run_closing_hooks}

drop_same : (xs ys : List Event) → ys ≡ xs → drop (length xs) ys ≡ []
drop_same xs ys h = ap (drop (length xs)) (h ∙ sym (append-nil xs)) ∙ drop-length-append xs []

drop_more : (xs ys zs : List Event) → ys ≡ xs ++ zs → drop (length xs) ys ≡ zs
drop_more xs ys zs h = ap (drop (length xs)) h ∙ drop-length-append xs zs

-- The events of a session that is buried with its hook still set.
buried_events :
    (old : List Event) (u : Session)
    → u.events ≡ old
    → u.hooked ≡ true
    → drop (length old) (bury u).events ≡ session_hook ∷ (close_streams u.streams).1
unfolding bury
buried_events old u same h = drop_more old _ _ (
    ap (λ x. x ++ ((if u.hooked then session_hook ∷ [] else []) ++ (close_streams u.streams).1))
      same
    ∙ ap (λ b. old ++ ((if b then session_hook ∷ [] else []) ++ (close_streams u.streams).1)) h)

module _ (im : IdleMap) (clock : ℕ → ℕ) where
  pub ran :
      {A : Type 0} (f : P A) (d : A) (seq : ℕ) (nd : Node) (c : Client im.T)
      → find_node seq c.nodes ≡ some nd
      → let n = net_of c.padding nd in
        run_session im clock seq d f c ≡ (
          (f n).0,
          run_hooks im clock nd.sess.closed seq
              (new_events im clock n (f n).1)
              (store im clock seq nd (f n).1 c),
        )
  unfolding run_session
  ran f d seq nd c has =
      ap
        (λ o.
          on_some o (d, c)
            λ x.
              let n = net_of c.padding x in
              (
                (f n).0,
                run_hooks im clock x.sess.closed seq (new_events im clock n (f n).1)
                    (store im clock seq x (f n).1 c),
              ))
        has

  pub stored :
      (seq : ℕ) (nd : Node) (m : Net) (c : Client im.T)
      → Holds im clock (store im clock seq nd m c) seq m.sess nd.active_streams
  stored seq nd m c = (with_net m nd, find_node-put_node seq (with_net m nd) c.nodes, refl, refl)

  abbrev pub left : ℕ → Node → Net → Client im.T → Client im.T
  left seq nd m c =
      run_hooks im clock nd.sess.closed seq (new_events im clock (net_of c.padding nd) m)
        (store im clock seq nd m c)

  -- A call without hooks leaves what it stored.
  pub hookless :
      (seq : ℕ) (nd : Node) (c : Client im.T) (m : Net)
      → m.sess.events ≡ nd.sess.events
      → Holds im clock (left seq nd m c) seq m.sess nd.active_streams
  unfolding run_hooks
  hookless seq nd c m h =
      subst
        (λ evs.
          Holds im clock (run_hooks im clock nd.sess.closed seq evs (store im clock seq nd m c)) seq
            m.sess nd.active_streams)
        (sym (drop_same nd.sess.events m.sess.events h)) (stored seq nd m c)

  pub recount :
      (d : Client im.T) (seq : ℕ) (s : Session) (j k : ℕ)
      → Holds im clock d seq s j
      → j ≡ k
      → Holds im clock d seq s k
  recount d seq s j k (nd, has, same, count) eq = (nd, has, same, count ∙ eq)

  -- A session that a call buries, with its hook still set: every hook has run behind the call.
  pub buried_holds :
      (seq : ℕ) (nd : Node) (c : Client im.T) (m : Net) (u : Session)
      → nd.sess.closed ≡ false
      → nd.active_streams < 2 ^ 31
      → nd.active_streams ≡ hook_count u.streams
      → u.events ≡ nd.sess.events
      → u.hooked ≡ true
      → m.sess ≡ bury u
      → Settled im clock seq m.sess 0
          (session_die_hook im clock seq (store im clock seq nd m c))
          (left seq nd m c)
  buried_holds seq nd c m u alive small count old hook made =
      let torn = close_streams-TornAll u.streams in
      let evs = (close_streams u.streams).1 in
      let news : new_events im clock (net_of c.padding nd) m ≡ session_hook ∷ evs =
        ap (λ s. drop (length nd.sess.events) s.events) made
        ∙ buried_events nd.sess.events u old hook in
      subst
        (λ (x : Bool × List Event).
          Settled im clock seq m.sess 0 (session_die_hook im clock seq (store im clock seq nd m c))
            (run_hooks im clock (x.0) seq (x.1) (store im clock seq nd m c)))
        (sym (
          ap (λ b. (b, new_events im clock (net_of c.padding nd) m)) alive
          ∙ ap (λ l. (false, l)) news))
        (run_closing_hooks im clock seq evs nd.active_streams 0 m.sess (store im clock seq nd m c)
          torn.all_hooks (stored seq nd m c) (omega (arith, count, torn.hooks_run)) small)
