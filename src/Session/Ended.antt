-- ===== src/Session/Ended.antt =====
-- session/session.go, recvLoop: the handlers that end a stream keep the map of streams sound.
use anytls_x.Base.{
  ℕ, ◌≡◌, sym, ap, ◌∙◌, subst, false, Option, some, List, [], ◌++◌, arith, length, ltb, inl, inr,
  All, if_cases, on_some_cases,
}
use anytls_x.Env.{Env, Error, remote}
use anytls_x.Frame.Defs.{Frame, new_frame, cmd_fin}
use anytls_x.Session.Defs.{
  Session, Stream, Net, Event, find_stream, put_stream, delete_stream, die_once, hook_events,
}
use anytls_x.Session.Write.{write_control_frame}
use anytls_x.Session.Recv.{
  acknowledge, forget, stream_closed, close_with_error, close_remote, acked, on_synack, finish,
  on_fin,
}
use anytls_x.Session.Alive.{Quiet, write_control_frame-Quiet}
use anytls_x.Session.Open.{
  IsAlive, IsSound, no_streams, All-delete_stream, delete_stream-put_stream, found_not_empty,
  on_stream-IsSound,
}

delete_stream-empty : (k : ℕ) (m : List (ℕ × Stream)) → m ≡ [] → delete_stream k m ≡ []
unfolding delete_stream
delete_stream-empty k m h = ap (delete_stream k) h

delete-IsSound :
    (k : ℕ) (s : Session) → IsSound s → IsSound (record s { streams = delete_stream k s.streams })
delete-IsSound k s h = (
  All-delete_stream k s.streams h.0,
  elim h.1 [ inl c ↦ inl c | inr x ↦ inr (delete_stream-empty k s.streams x) ],
  elim h.2 [
    | inl c ↦ inl c
    | inr (inl g) ↦ inr (inl g)
    | inr (inr x) ↦ inr (inr (delete_stream-empty k s.streams x))
  ],
)

pub on_fin-IsSound :
    (e : Env) (f : Frame) (n : Net) → IsSound n.sess → IsSound (on_fin e f n).1.sess
unfolding on_fin finish
on_fin-IsSound e f n h =
    on_some_cases IsSound (find_stream f.sid n.sess.streams) _ _ (λ _. h)
      (λ st has. delete-IsSound f.sid n.sess h)

-- A stream that died in the map is taken out of it, behind a write.
forgotten-IsSound :
    (k : ℕ) (new : Stream) (evs : List Event) (n m : Net)
    → IsSound n.sess
    → let s = n.sess in
      Quiet (record n { sess = record s { streams = put_stream k new s.streams; events = evs } }) m
      → IsSound (forget k m.sess)
unfolding forget
forgotten-IsSound k new evs n m h (inr q) =
    no_streams (forget k m.sess) (delete_stream-empty k m.sess.streams q.0)
forgotten-IsSound k new evs n m h (inl q) =
    let same = ap (delete_stream k) q.0 ∙ delete_stream-put_stream k new n.sess.streams in
    let rest = delete-IsSound k n.sess h in
    (
      subst (All IsAlive) (sym same) rest.0,
      elim rest.1 [ inl c ↦ inl (q.1 ∙ c) | inr x ↦ inr (same ∙ x) ],
      elim rest.2 [
        | inl c ↦ inl (q.2 ∙ c)
        | inr (inl g) ↦ inr (inl (q.3 ∙ g))
        | inr (inr x) ↦ inr (inr (same ∙ x))
      ],
    )

stream_closed-IsSound :
    (e : Env) (k : ℕ) (new : Stream) (evs : List Event) (n : Net)
    → IsSound n.sess
    → n.sess.closed ≡ false
    → let s = n.sess in
      let dead = record n {
        sess = record s { streams = put_stream k new s.streams; events = evs };
      } in
      IsSound (stream_closed e k dead).1.sess
unfolding stream_closed
stream_closed-IsSound e k new evs n h c =
    let s = n.sess in
    let dead = record n {
      sess = record s { streams = put_stream k new s.streams; events = evs };
    } in
    if_cases (λ (r : Option Error × Net). IsSound r.1.sess) n.sess.closed _ _
      (λ x. absurd (ground arith))
      (λ _.
        forgotten-IsSound k new evs n (write_control_frame e (new_frame cmd_fin k) dead).1 h
          (write_control_frame-Quiet e (new_frame cmd_fin k) dead))

pub not_closed :
    (k : ℕ) (st : Stream) (s : Session)
    → IsSound s
    → find_stream k s.streams ≡ some st
    → s.closed ≡ false
not_closed k st s h has = elim h.1 [
  | inl c ↦ c
  | inr x ↦ absurd (found_not_empty k st s.streams has x)
]

pub close_with_error-IsSound :
    (e : Env) (k : ℕ) (err : Error) (st : Stream) (n : Net)
    → IsSound n.sess
    → find_stream k n.sess.streams ≡ some st
    → IsSound (close_with_error e k err st n).1.sess
unfolding close_with_error
close_with_error-IsSound e k err st n h has =
    if_cases (λ (r : Option Error × Net). IsSound r.1.sess) (die_once err st).1 _ _
      (λ _.
        stream_closed-IsSound e k (die_once err st).0
          (n.sess.events ++ hook_events st (die_once err st).1) n h (not_closed k st n.sess h has))
      (λ _. h)

pub close_remote-IsSound :
    (e : Env) (f : Frame) (n : Net) → IsSound n.sess → IsSound (close_remote e f n).1.sess
unfolding close_remote
close_remote-IsSound e f n h =
    on_some_cases (λ (r : Unit {0} × Net). IsSound r.1.sess) (find_stream f.sid n.sess.streams) _ _
      (λ _. h) (λ st has. close_with_error-IsSound e f.sid (remote f.payload) st n h has)

pub acknowledge-IsSound : (k : ℕ) (s : Session) → IsSound s → IsSound (acknowledge k s)
unfolding acknowledge
acknowledge-IsSound k s h =
    on_stream-IsSound k acked (record s { consecutive_syn_ack_timeouts = 0 }) (λ st a. a) h

pub on_synack-IsSound :
    (e : Env) (f : Frame) (n : Net) → IsSound n.sess → IsSound (on_synack e f n).1.sess
unfolding on_synack
on_synack-IsSound e f n h =
    let m = record n { sess = acknowledge f.sid n.sess } in
    let sound = acknowledge-IsSound f.sid n.sess h in
    if_cases (λ (r : Unit {0} × Net). IsSound r.1.sess) (ltb 0 (length f.payload)) _ _
      (λ _. close_remote-IsSound e f m sound) (λ _. sound)
