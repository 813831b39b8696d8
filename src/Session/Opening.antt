-- ===== src/Session/Opening.antt =====
-- session/session.go, OpenStream. What the SYNACK timer does when it runs out is in Session/Timers.
use anytls_x.Base.{
  ℕ, ◌+◌, ◌%◌, ◌^◌, Bool, false, ◌&&◌, ◌||◌, Option, none, some, leb, if◌then◌else◌,
}
use anytls_x.Env.{Env, Error, closed_pipe}
use anytls_x.Frame.Defs.{new_frame, cmd_syn}
use anytls_x.Session.Defs.{
  Session, Stream, P, running, unset, new_stream_obj, put_stream, delete_stream,
}
use anytls_x.Session.Write.{write_control_frame}

-- s.streamId.Add(1), on a uint32.
abbrev pub next_stream_id : Session → ℕ
next_stream_id s = (s.stream_id + 1) % 2 ^ 32

-- The stream that OpenStream registers: behind the first, with a timer for the SYNACK.
unfoldable pub opened_stream : Bool → Session → Stream
unfolding new_stream_obj
opened_stream hooked s =
    let sid = next_stream_id s in
    let st = new_stream_obj sid s.mig_active in
    record st {
      hooked = hooked;
      syn_timer = if leb 2 sid && leb 2 s.peer_version then running else unset;
    }

unfoldable pub registered : Bool → Session → Session
unfolding opened_stream
registered hooked s = record s {
  stream_id = next_stream_id s;
  streams = put_stream (next_stream_id s) (opened_stream hooked s) s.streams;
}

-- What follows the write of the SYN. On an error the session is closed already, with every timer
-- stopped, and the stream leaves the map.
unfoldable pub open_result : ℕ → Option Error → P (Option ℕ × Option Error)
open_result sid none n =
    let s = n.sess in ((some sid, none), record n { sess = record s { buffering = false } })
open_result sid (some err) n =
    let s = n.sess in
    ((some sid, some err), record n { sess = record s { streams = delete_stream sid s.streams } })

-- The answer names the stream by its id. A second look at whether the session is closed, under
-- streamLock, finds what the first found.
unfoldable pub open_stream : Env → Bool → P (Option ℕ × Option Error)
unfolding registered open_result
open_stream e hooked n =
    let sid = next_stream_id n.sess in
    let sent =
      write_control_frame e (new_frame cmd_syn sid)
        (record n { sess = registered hooked n.sess }) in
    if n.sess.closed || n.sess.conn_broken
    then ((none, some closed_pipe), n)
    else open_result sid sent.0.error sent.1
