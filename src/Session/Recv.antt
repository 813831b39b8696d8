-- ===== src/Session/Recv.antt =====
-- session/session.go, recvLoop: the handlers of the commands that open, feed and close a stream.
-- pipeW.Write hands the bytes to the reader of a stream that is not closed.
use anytls_x.Base.{
  ℕ, ◌+◌, ◌&&◌, not, Option, none, some, List, [], ◌∷◌, ◌++◌, length, ltb, leb, ◌==◌, if◌then◌else◌,
  on_some,
}
use anytls_x.Env.{Env, Error, closed_pipe, net_closed, remote}
use anytls_x.Frame.Defs.{Frame, new_frame, cmd_fin, cmd_alert}
use anytls_x.Session.Defs.{
  Session, Stream, P, ◌>>=◌, ◌>>◌, pure, lift, modify, when, new_stream, find_stream, put_stream,
  delete_stream, die_once, hook_events, new_stream_obj, stop_timer,
}
use anytls_x.Session.Write.{write_control_frame, write_window_update_waste, next_wnd_interval}
use anytls_x.Session.Settings.{no_settings_text}

-- The next round, or recvLoop's return.
pub data Verdict : Type 0 where
  go_on : Verdict
  ends : Option Error → Verdict

abbrev pub on_stream : ℕ → (Stream → Stream) → Session → Session
on_stream sid f s =
    on_some (find_stream sid s.streams) s
      λ st. record s { streams = put_stream sid (f st) s.streams }

-- A closed pipe takes nothing: that of a dead stream, or of one whose carrier has ended.
unfoldable pub hand_over : List ℕ → Stream → Stream
hand_over p st = elim st.die_err [
  | none ↦ if st.pipe_closed then st else record st { received = st.received ++ p }
  | some err ↦ st
]

unfoldable pub track_received : Env → ℕ → P (Unit {0})
unfolding write_window_update_waste next_wnd_interval
track_received e len n =
    let s = n.sess in
    let due = do
      write_window_update_waste e
      t ← lift (next_wnd_interval e s.wnd_update_base)
      modify (λ s. record s { wnd_update_trigger = t })
    in if s.wnd_update_trigger == 0
      then (tt, n)
      else (if leb s.wnd_update_trigger (s.recv_bytes + len)
          then due (record n { sess = record s { recv_bytes = 0 } })
          else (tt, record n { sess = record s { recv_bytes = s.recv_bytes + len } }))

unfoldable pub on_psh : Env → Frame → P Verdict
unfolding hand_over track_received
on_psh e f n =
    if length f.payload == 0
    then (go_on, n)
    else (do
      modify (on_stream f.sid (hand_over f.payload))
      track_received e (length f.payload)
      pure go_on)
        n

-- A frame that ends the loop is sent, whatever comes of it.
abbrev pub send_last : Env → ℕ → List ℕ → Option Error → P Verdict
send_last e cmd text err n =
    (ends err, (write_control_frame e (record { cmd = cmd; sid = 0; payload = text }) n).1)

unfoldable pub register : ℕ → Session → Session
unfolding new_stream_obj
register sid s =
    on_some (find_stream sid s.streams)
      (record s {
        streams = put_stream sid (new_stream_obj sid s.mig_active) s.streams;
        events = s.events ++ (new_stream sid ∷ []);
      })
      λ st. s

unfoldable pub on_syn : Env → Frame → P Verdict
unfolding register
on_syn e f n =
    if not n.sess.is_client && not n.sess.received_settings
    then send_last e cmd_alert no_settings_text none n
    else (do modify (register f.sid); pure go_on) n

abbrev pub found : Option Stream → List Stream
found none = []
found (some st) = st ∷ []

-- delete(s.streams, sid), with a note of the stream that was there.
unfoldable pub forget : ℕ → Session → Session
forget sid s = record s {
  streams = delete_stream sid s.streams;
  retired = s.retired ++ found (find_stream sid s.streams);
}

unfoldable pub stream_closed : Env → ℕ → P (Option Error)
unfolding forget
stream_closed e sid n =
    if n.sess.closed
    then (some closed_pipe, n)
    else (do r ← write_control_frame e (new_frame cmd_fin sid); modify (forget sid); pure r.error) n

-- What closeWithError answers when dieOnce has run before.
abbrev pub died_of : Stream → Option Error
died_of st = on_some st.die_err (some closed_pipe) some

-- closeWithError, on a stream as it stands in the map.
unfoldable pub close_with_error : Env → ℕ → Error → Stream → P (Option Error)
unfolding stream_closed die_once
close_with_error e sid err st n =
    let r = die_once err st in
    let s = n.sess in
    let dead = record s {
      streams = put_stream sid r.0 s.streams;
      events = s.events ++ hook_events st r.1;
    } in
    if r.1 then stream_closed e sid (record n { sess = dead }) else (died_of st, n)

unfoldable pub close_remote : Env → Frame → P (Unit {0})
unfolding close_with_error
close_remote e f n =
    on_some (find_stream f.sid n.sess.streams) (tt, n)
      λ st. (tt, (close_with_error e f.sid (remote f.payload) st n).1)

abbrev pub acked : Stream → Stream
acked st = record st { syn_timer = stop_timer st.syn_timer }

-- What cmdSYNACK does before its payload is read.
unfoldable pub acknowledge : ℕ → Session → Session
acknowledge sid s = on_stream sid acked (record s { consecutive_syn_ack_timeouts = 0 })

unfoldable pub on_synack : Env → Frame → P Verdict
unfolding acknowledge close_remote
on_synack e f = do
  modify (acknowledge f.sid)
  when (ltb 0 (length f.payload)) (close_remote e f)
  pure go_on

-- delete, and closeLocally of what was there.
unfoldable pub finish : ℕ → Session → Session
unfolding die_once
finish sid s = on_some (find_stream sid s.streams) s λ st.
    let r = die_once net_closed st in
    record s {
      streams = delete_stream sid s.streams;
      retired = s.retired ++ (r.0 ∷ []);
      events = s.events ++ hook_events st r.1;
    }

unfoldable pub on_fin : Env → Frame → P Verdict
unfolding finish
on_fin e f = do modify (finish f.sid); pure go_on
