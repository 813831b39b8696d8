-- ===== src/Session/Opened.antt =====
-- session/session.go, OpenStream: what a stream that opens leaves behind.
use anytls_x.Base.{
  ◌≤◌, ◌↔◌, ℕ, ◌≡◌, refl, ap, ◌∙◌, Bool, true, false, ◌||◌, Option, none, some, List, [], ◌∷◌, ◌++◌,
  arith, length, ltb, inl, inr, Bool-cases,
}
use anytls_x.Env.{Env, Error}
use anytls_x.Frame.Defs.{Frame, new_frame, cmd_syn, encode}
use anytls_x.Frame.Stream.{IsFrame}
use anytls_x.Shaper.Shaped.{visible}
use anytls_x.Session.Defs.{Session, Stream, Net, running, new_stream_obj, find_stream}
use anytls_x.Session.Write.{write_conn, control_result, write_control_frame}
use anytls_x.Session.Control.{Speaks, write_control_frame-Speaks}
use anytls_x.Session.Alive.{Still, write_conn-Still}
use anytls_x.Session.Delivery.{find_stream-put_stream}
use anytls_x.Session.Opening.{next_stream_id, opened_stream, registered, open_result, open_stream}

control_result-Still :
    (e : Env) (len : ℕ) (o : Option Error) (n : Net)
    → (control_result e len o n).0.error ≡ none
    → Still n (control_result e len o n).1
unfolding control_result
control_result-Still e len none n h = (refl, refl, refl, refl)
control_result-Still e len (some err) n h = cc

Still-Still : (n m k : Net) → Still n m → Still m k → Still n k
Still-Still n m k s q = (q.0 ∙ s.0, q.1 ∙ s.1, q.2 ∙ s.2, q.3 ∙ s.3)

pub write_control_frame-Still :
    (e : Env) (f : Frame) (n : Net)
    → (write_control_frame e f n).0.error ≡ none
    → Still n (write_control_frame e f n).1
unfolding write_control_frame
write_control_frame-Still e f n h = elim (Bool-cases (ltb 0xFFFF (length f.payload))) [
  | inl large ↦ rw large (refl, refl, refl, refl)
  | inr small ↦
      let r = write_conn e (encode f.cmd f.sid f.payload) true n in
      rw small (
        Still-Still n r.1 (control_result e (length f.payload) r.0.error r.1).1
          (write_conn-Still e (encode f.cmd f.sid f.payload) true n)
          (control_result-Still e (length f.payload) r.0.error r.1 (rw small at h)))
]

syn-IsFrame : (s : Session) → IsFrame (new_frame cmd_syn (next_stream_id s))
unfolding new_frame
syn-IsFrame s = record { sid_fits = omega arith; payload_fits = omega arith; read_whole = inr refl }

registered-Speaks :
    (hooked : Bool) (n : Net) (gs : List Frame)
    → Speaks n gs
    → Speaks (record n { sess = registered hooked n.sess }) gs
unfolding registered
registered-Speaks hooked n gs s = record {
  spoken = s.spoken;
  whole = s.whole;
  on_line = s.on_line;
  heard = s.heard;
}

-- The stream that opened: alive, with the hook of the call, and with its timer running exactly when it
-- is not the first and the peer speaks version 2.
pub record IsOpened (hooked : Bool) (s : Session) (st : Stream) : Type 0 where
  pub same_id : st.id ≡ next_stream_id s
  pub with_hook : st.hooked ≡ hooked
  pub no_error : st.die_err ≡ none
  pub timer_runs : (st.syn_timer ≡ running) ↔ ((2 ≤ next_stream_id s) × (2 ≤ s.peer_version))

opened_stream-IsOpened : (hooked : Bool) (s : Session) → IsOpened hooked s (opened_stream hooked s)
unfolding opened_stream new_stream_obj
opened_stream-IsOpened hooked s = record {
  same_id = refl;
  with_hook = refl;
  no_error = refl;
  timer_runs = ground arith;
}

-- What a stream that opened leaves.
abbrev pub Opens : Bool → List Frame → Net → (Option ℕ × Option Error) × Net → Type 0
Opens hooked gs n r =
    (r.0.0 ≡ some (next_stream_id n.sess))
    × Speaks r.1 (gs ++ visible (new_frame cmd_syn (next_stream_id n.sess) ∷ []))
    × ((st : Stream) × (find_stream (next_stream_id n.sess) r.1.sess.streams ≡ some st)
        × IsOpened hooked n.sess st)
    × (r.1.sess.buffering ≡ false)

open_result-Opens :
    (hooked : Bool) (gs : List Frame) (n m : Net) (o : Option Error)
    → (o ≡ none → Speaks m (gs ++ visible (new_frame cmd_syn (next_stream_id n.sess) ∷ [])))
    → (o ≡ none
        → find_stream (next_stream_id n.sess) m.sess.streams ≡ some (opened_stream hooked n.sess))
    → (open_result (next_stream_id n.sess) o m).0.1 ≡ none
    → Opens hooked gs n (open_result (next_stream_id n.sess) o m)
unfolding open_result
open_result-Opens hooked gs n m none f g h =
    let s = f refl in
    (
      refl,
      record { spoken = s.spoken; whole = s.whole; on_line = s.on_line; heard = s.heard },
      (opened_stream hooked n.sess, g refl, opened_stream-IsOpened hooked n.sess),
      refl,
    )
open_result-Opens hooked gs n m (some err) f g h = cc

-- On a session whose line so far is whole frames that the peer acts on as `gs`, an OpenStream that
-- answers no error answers the next stream id, leaves in the map under it a stream of that id
-- without an error, with the hook of the call, and with its SYNACK timer running exactly when the
-- id and the version of the peer are both at least 2, leaves a line of whole frames that the peer
-- acts on as `gs` and then the SYN of the stream, and has ended the buffering.
pub open_stream-Opens :
    (e : Env) (hooked : Bool) (n : Net) (gs : List Frame)
    → Speaks n gs
    → (open_stream e hooked n).0.1 ≡ none
    → Opens hooked gs n (open_stream e hooked n)
unfolding open_stream
open_stream-Opens e hooked n gs s h = elim (Bool-cases (n.sess.closed || n.sess.conn_broken)) [
  | inl dead ↦ ground (arith, dead)
  | inr alive ↦
      let m = record n { sess = registered hooked n.sess } in
      let f = new_frame cmd_syn (next_stream_id n.sess) in
      let sent = write_control_frame e f m in
      rw alive (
        open_result-Opens hooked gs n sent.1 sent.0.error
          (λ ok.
            (write_control_frame-Speaks e f m gs (syn-IsFrame n.sess)
              (registered-Speaks hooked n gs s) ok).0)
          (λ ok.
            ap (find_stream (next_stream_id n.sess)) (write_control_frame-Still e f m ok).0
            ∙ (unfold registered in
                find_stream-put_stream (next_stream_id n.sess) (opened_stream hooked n.sess)
                  n.sess.streams))
          (rw alive at h))
]
