-- ===== src/Pool/Rolled.antt =====
-- session/client.go, openOn and streamDieHook: the count of the active streams of a session.
use anytls_x.Base.{
  ℕ, suc, ◌+◌, ◌^◌, ◌<◌, ◌≡◌, refl, sym, ap, ◌∙◌, subst, Bool, true, false, some, List, [], ◌∷◌,
  arith, All, on_some, if◌then◌else◌,
}
use anytls_x.Session.Defs.{Session, Event, stream_hook, session_hook}
use anytls_x.Session.Timers.{int32_le}
use anytls_x.Pool.Idle.{IdleMap}
use anytls_x.Pool.Defs.{Node, Client, find_node, put_node, decreased, change_node}
use anytls_x.Pool.Hooks.{settle, stream_die_hook, session_die_hook, run_hook, run_hooks}
use anytls_x.Pool.Nodes.{find_node-put_node}
use anytls_x.Pool.Counted.{IsStreamHook, count_of}

module _ (im : IdleMap) (clock : ℕ → ℕ) where
  -- A session of the client, with its state and its count of active streams.
  abbrev pub Holds : Client im.T → ℕ → Session → ℕ → Type 0
  Holds c seq s k =
      (nd : Node) × (find_node seq c.nodes ≡ some nd) × (nd.sess ≡ s) × (nd.active_streams ≡ k)

  settle_closed :
      (broken : Bool) (seq : ℕ) (c : Client im.T) → settle im clock true broken seq c ≡ c
  unfolding settle
  settle_closed true seq c = refl
  settle_closed false seq c = refl

  pub changed :
      (f : Node → Node) (seq : ℕ) (nd : Node) (c : Client im.T)
      → find_node seq c.nodes ≡ some nd
      → change_node seq f c ≡ record c { nodes = put_node seq (f nd) c.nodes }
  unfolding change_node
  changed f seq nd c has =
      ap (λ o. on_some o c λ x. record c { nodes = put_node seq (f x) c.nodes }) has

  either_way : (b : Bool) (c d : Client im.T) → c ≡ d → (if b then c else d) ≡ d
  either_way true c d h = h
  either_way false c d h = refl

  closed_hook_lem :
      (seq : ℕ) (nd : Node) (c : Client im.T)
      → find_node seq c.nodes ≡ some nd
      → stream_die_hook im clock true seq c
        ≡ record c { nodes = put_node seq (decreased nd) c.nodes }
  unfolding stream_die_hook
  closed_hook_lem seq nd c has =
      ap
        (λ o. on_some o c λ x.
          let less = change_node seq decreased c in
          if int32_le (decreased x).active_streams 0
          then settle im clock true x.sess.conn_broken seq less
          else less)
        has
      ∙ either_way (int32_le (decreased nd).active_streams 0)
          (settle im clock true nd.sess.conn_broken seq (change_node seq decreased c))
          (change_node seq decreased c)
          (settle_closed nd.sess.conn_broken seq (change_node seq decreased c))
      ∙ changed decreased seq nd c has

  -- What a run of hooks of a closed session leaves alone.
  abbrev pub Settled : ℕ → Session → ℕ → Client im.T → Client im.T → Type 0
  Settled seq s k c d = Holds d seq s k × (d.idle ≡ c.idle) × (d.sessions ≡ c.sessions)

  closed_hook :
      (seq k : ℕ) (s : Session) (c : Client im.T)
      → Holds c seq s (suc k)
      → suc k < 2 ^ 31
      → Settled seq s k c (stream_die_hook im clock true seq c)
  closed_hook seq k s c (nd, has, same, count) small =
      subst (Settled seq s k c) (sym (closed_hook_lem seq nd c has)) (
        (
          decreased nd,
          find_node-put_node seq (decreased nd) c.nodes,
          same,
          omega (arith, count, small),
        ),
        refl,
        refl,
      )

  closed_hooks :
      (seq : ℕ) (evs : List Event) (t k : ℕ) (s : Session) (c : Client im.T)
      → All IsStreamHook evs
      → Holds c seq s t
      → t ≡ count_of evs + k
      → t < 2 ^ 31
      → Settled seq s k c (run_hooks im clock true seq evs c)
  unfolding run_hooks run_hook count_of
  closed_hooks seq [] t k s c a (nd, has, same, count) eq small =
      ((nd, has, same, omega (arith, count, eq)), refl, refl)
  closed_hooks seq (stream_hook sid ∷ evs) t k s c a (nd, has, same, count) eq small =
      let one =
        closed_hook seq (count_of evs + k) s c (nd, has, same, omega (arith, count, eq))
          (omega (arith, eq, small)) in
      let rest =
        closed_hooks seq evs (count_of evs + k) k s (stream_die_hook im clock true seq c) (a.1)
          (one.0) refl (omega (arith, eq, small)) in
      (rest.0, rest.1 ∙ one.1, rest.2 ∙ one.2)
  closed_hooks seq (ev ∷ evs) t k s c a h eq small = absurd (a.0)

  -- The hooks of a session that closes, the session's own before those of its streams.
  pub run_closing_hooks :
      (seq : ℕ) (evs : List Event) (t k : ℕ) (s : Session) (c : Client im.T)
      → All IsStreamHook evs
      → Holds c seq s t
      → t ≡ count_of evs + k
      → t < 2 ^ 31
      → Settled seq s k
          (session_die_hook im clock seq c)
          (run_hooks im clock false seq (session_hook ∷ evs) c)
  unfolding run_hooks run_hook session_die_hook
  run_closing_hooks seq evs t k s c a h eq small =
      closed_hooks seq evs t k s (session_die_hook im clock seq c) a h eq small
