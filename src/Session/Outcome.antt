-- ===== src/Session/Outcome.antt =====
-- session/session.go: what a control frame leaves of a session, hooks and all.
use anytls_x.Base.{
  ℕ, ◌≤◌, ◌≡◌, refl, sym, ap, ◌∙◌, Bool, true, false, ◌||◌, ◌&&◌, Option, none, some, List, arith,
  length, ltb, ◌⊎◌, inl, inr, if_cases,
}
use anytls_x.Env.{Env, Error, Written, closed_pipe}
use anytls_x.Frame.Defs.{Frame, encode, new_frame, cmd_syn}
use anytls_x.Session.Defs.{Session, Stream, Net, delete_stream}
use anytls_x.Session.Write.{
  bury, write_conn, flush_buffer, buffer_up, write_shaped, is_lone_syn, control_result,
  write_control_frame,
}
use anytls_x.Session.Control.{close_lem}
use anytls_x.Session.Opening.{next_stream_id, registered, open_result, open_stream}

-- The streams and the hooks of a session are the same.
pub record Kept (s t : Session) : Type 0 where
  pub streams_same : t.streams ≡ s.streams
  pub retired_same : t.retired ≡ s.retired
  pub events_same : t.events ≡ s.events
  pub hooked_same : t.hooked ≡ s.hooked
  pub closed_same : t.closed ≡ s.closed

pub Kept-refl : (s : Session) → Kept s s
Kept-refl s = record {
  streams_same = refl;
  retired_same = refl;
  events_same = refl;
  hooked_same = refl;
  closed_same = refl;
}

same-Kept :
    (s t : Session)
    → t.streams ≡ s.streams
    → t.retired ≡ s.retired
    → t.events ≡ s.events
    → t.hooked ≡ s.hooked
    → t.closed ≡ s.closed
    → Kept s t
same-Kept s t a b c d e = record {
  streams_same = a;
  retired_same = b;
  events_same = c;
  hooked_same = d;
  closed_same = e;
}

write_shaped-Kept :
    (e : Env) (b : List ℕ) (c : Bool) (n : Net) → Kept n.sess (write_shaped e b c n).1.sess
unfolding write_shaped
write_shaped-Kept e b c n =
    if_cases (λ (r : Written × Net). Kept n.sess r.1.sess) (c && is_lone_syn b) _ _
      (λ _. same-Kept n.sess _ refl refl refl refl refl)
      λ _.
        if_cases (λ (r : Written × Net). Kept n.sess r.1.sess) c _ _
          (λ _. same-Kept n.sess _ refl refl refl refl refl)
          λ _. same-Kept n.sess _ refl refl refl refl refl

write_conn-Kept :
    (e : Env) (b : List ℕ) (c : Bool) (n : Net) → Kept n.sess (write_conn e b c n).1.sess
unfolding write_conn buffer_up flush_buffer
write_conn-Kept e b c n =
    if_cases (λ (r : Written × Net). Kept n.sess r.1.sess) n.sess.closed _ _ (λ _. Kept-refl n.sess)
      λ _.
        if_cases (λ (r : Written × Net). Kept n.sess r.1.sess) n.sess.buffering _ _
          (λ _. same-Kept n.sess _ refl refl refl refl refl)
          λ _.
            if_cases (λ (r : Written × Net). Kept n.sess r.1.sess) (ltb 0 (length n.sess.buffer)) _
              _ (λ _. same-Kept n.sess _ refl refl refl refl refl) λ _. write_shaped-Kept e b c n

-- A control frame that went out changed nothing of that; one that failed buried the session.
abbrev pub Outcome : Session → Option Error → Session → Type 0
Outcome s none t = Kept s t
Outcome s (some err) t = (u : Session) × Kept s u × (t ≡ bury u)

control_result-Outcome :
    (e : Env) (len : ℕ) (s : Session) (o : Option Error) (n : Net)
    → s.closed ≡ false
    → Kept s n.sess
    → Outcome s (control_result e len o n).0.error (control_result e len o n).1.sess
unfolding control_result
control_result-Outcome e len s none n alive k = k
control_result-Outcome e len s (some err) n alive k = elim (close_lem e n) [
  | inl (dead, _) ↦ absurd (ground (arith, dead, k.closed_same, alive))
  | inr (_, _, made, _) ↦ (n.sess, k, made)
]

pub write_control_frame-Outcome :
    (e : Env) (f : Frame) (n : Net)
    → n.sess.closed ≡ false
    → length f.payload ≤ 0xFFFF
    → Outcome n.sess (write_control_frame e f n).0.error (write_control_frame e f n).1.sess
unfolding write_control_frame
write_control_frame-Outcome e f n alive fits =
    if_cases (λ (m : Net → Written × Net). Outcome n.sess (m n).0.error (m n).1.sess)
      (ltb 0xFFFF (length f.payload)) _ _ (λ large. absurd (ground (arith, large, fits)))
      λ _.
        let r = write_conn e (encode f.cmd f.sid f.payload) true n in
        control_result-Outcome e (length f.payload) n.sess r.0.error r.1 alive
          (write_conn-Kept e (encode f.cmd f.sid f.payload) true n)

-- What OpenStream comes to: it is refused and nothing changes, or the stream is registered and then its
-- SYN goes out, or else the session, with the stream in its map, is buried.
abbrev pub OpenOutcome : Bool → Net → (Option ℕ × Option Error) × Net → Type 0
OpenOutcome hooked n r =
    ((r.0.0 ≡ none) × (r.0.1 ≡ some closed_pipe) × (r.1 ≡ n))
    ⊎ ((n.sess.closed ≡ false)
        × (r.0.0 ≡ some (next_stream_id n.sess))
        × Outcome (registered hooked n.sess) r.0.1 r.1.sess)

buried_empty : (sid : ℕ) (s : Session) → delete_stream sid (bury s).streams ≡ (bury s).streams
unfolding bury delete_stream
buried_empty sid s = refl

with_streams_same :
    (s : Session) (m : List (ℕ × Stream)) → m ≡ s.streams → record s { streams = m } ≡ s
with_streams_same s m h = ap (λ x. record s { streams = x }) h

open_result-Outcome :
    (s : Session) (sid : ℕ) (o : Option Error) (n : Net)
    → Outcome s o n.sess
    → ((open_result sid o n).0.0 ≡ some sid)
      × Outcome s (open_result sid o n).0.1 (open_result sid o n).1.sess
unfolding open_result
open_result-Outcome s sid none n k =
    (refl, same-Kept s _ k.streams_same k.retired_same k.events_same k.hooked_same k.closed_same)
open_result-Outcome s sid (some err) n (u, k, made) = (
  refl,
  (
    u,
    k,
    with_streams_same n.sess (delete_stream sid n.sess.streams) (
          ap (λ x. delete_stream sid x.streams) made
          ∙ buried_empty sid u
          ∙ sym (ap (λ x. x.streams) made))
        ∙ made,
  ),
)

pub open_stream-OpenOutcome :
    (e : Env) (hooked : Bool) (n : Net) → OpenOutcome hooked n (open_stream e hooked n)
unfolding open_stream
open_stream-OpenOutcome e hooked n =
    if_cases (OpenOutcome hooked n) (n.sess.closed || n.sess.conn_broken) _ _
      (λ _. inl (refl, refl, refl))
      λ alive.
        let m = record n { sess = registered hooked n.sess } in
        let sent = write_control_frame e (new_frame cmd_syn (next_stream_id n.sess)) m in
        let out =
          open_result-Outcome (registered hooked n.sess) (next_stream_id n.sess) sent.0.error sent.1
            (write_control_frame-Outcome e (new_frame cmd_syn (next_stream_id n.sess)) m
              (unfold registered in ground (arith, alive)) (unfold new_frame in omega arith)) in
        inr (ground (arith, alive), out.0, out.1)
