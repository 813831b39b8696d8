-- ===== src/Session/Closed.antt =====
-- session/session.go, Close: what it leaves of a session.
use anytls_x.Base.{
  ℕ, ◌≡◌, ◌≢◌, refl, sym, ap, ◌∙◌, subst, true, false, none, some, List, [], ◌∷◌, ◌++◌, All,
  All-map, Any, ◌⊎◌, inl, inr, arith, Option-cases,
}
use anytls_x.Env.{Env, Error, closed_pipe, net_closed}
use anytls_x.Session.Defs.{Session, Stream, Net, running, die_once, close_streams}
use anytls_x.Session.Write.{bury, close}
use anytls_x.Session.Control.{close_lem, close-closed}

-- The stream `t` is what Close makes of the stream `st`: one that was alive has net.ErrClosed, no timer
-- that runs and no hook to run, and one that was dead is as it was.
abbrev pub IsTornDown : Stream → Stream → Type 0
IsTornDown st t =
    (t.id ≡ st.id)
    × (((st.die_err ≡ none)
          × (t.die_err ≡ some net_closed)
          × (t.syn_timer ≢ running)
          × (t.hooked ≡ false))
        ⊎ ((err : Error) × (st.die_err ≡ some err) × (t ≡ st)))

die_once-IsTornDown : (st : Stream) → IsTornDown st (die_once net_closed st).0
unfolding die_once
die_once-IsTornDown st = elim (Option-cases st.die_err) [
  | inl alive ↦ ground (arith, alive)
  | inr (err, dead) ↦ (ground (arith, dead), inr (err, dead, ground (arith, dead)))
]

close_streams-IsTornDown :
    (m : List (ℕ × Stream)) → All (λ kv. Any (IsTornDown (kv.1)) (close_streams m).0) m
unfolding close_streams
close_streams-IsTornDown [] = tt
close_streams-IsTornDown ((k, st) ∷ m) =
    (inl (die_once-IsTornDown st), All-map _ _ m (λ kv h. inr h) (close_streams-IsTornDown m))

Any-behind : (P : Stream → Type 0) (xs ys : List Stream) → Any P ys → Any P (xs ++ ys)
Any-behind P [] ys h = h
Any-behind P (x ∷ xs) ys h = inr (Any-behind P xs ys h)

bury-IsTornDown : (s : Session) → All (λ kv. Any (IsTornDown (kv.1)) (bury s).retired) s.streams
unfolding bury
bury-IsTornDown s =
    All-map _ _ s.streams (λ kv h. Any-behind (IsTornDown (kv.1)) s.retired _ h)
      (close_streams-IsTornDown s.streams)

close_again : (e : Env) (n : Net) → n.sess.closed ≡ true → close e n ≡ (some closed_pipe, n)
close_again e n dead = elim (close_lem e n) [
  | inl (_, same) ↦ same
  | inr (alive, _, _, _) ↦ absurd (ground (arith, alive, dead))
]

-- Session.Close on an open session answers what Close of the connection answers, and leaves the
-- session closed with no streams and the connection shut, whatever the GOAWAY frame comes to. Each
-- stream of the map is among the retired ones: one that was alive with net.ErrClosed, no timer that
-- runs and no hook to run, and one that was dead as it was. A second Close answers io.ErrClosedPipe
-- and changes nothing.
pub close_closes :
    (e : Env) (n : Net)
    → n.sess.closed ≡ false
    → ((close e n).0 ≡ e.close_error)
      × ((close e n).1.sess.closed ≡ true)
      × ((close e n).1.sess.streams ≡ [])
      × ((close e n).1.world.shut ≡ true)
      × All (λ kv. Any (IsTornDown (kv.1)) (close e n).1.sess.retired) n.sess.streams
      × (close e (close e n).1 ≡ (some closed_pipe, (close e n).1))
close_closes e n alive = elim (close_lem e n) [
  | inl (dead, _) ↦ absurd (ground (arith, alive, dead))
  | inr (_, answer, made, shut) ↦ (
    answer,
    close-closed e n,
    ap (λ s. s.streams) made ∙ (unfold bury in refl),
    shut,
    subst (λ s. All (λ kv. Any (IsTornDown (kv.1)) s.retired) n.sess.streams) (sym made)
        (bury-IsTornDown n.sess),
    close_again e (close e n).1 (close-closed e n),
  )
]
