-- ===== src/Session/Streams.antt =====
-- session/stream.go: Write, Close, HandshakeFailure and HandshakeSuccess of a stream. `sid` is its id
-- and `st` the stream as it stands when the call begins. Write hands the bytes of a stream that has
-- rail-switch state to `mig_write`.
use anytls_x.Base.{
  ℕ, ◌+◌, ◌%◌, ◌^◌, Bool, true, ◌&&◌, not, Option, none, some, List, [], ◌∷◌, leb, ◌==◌,
  if◌then◌else◌, on_some, on_error,
}
use anytls_x.Env.{Env, Error, Written, deadline_exceeded, closed_pipe}
use anytls_x.Frame.Defs.{cmd_synack}
use anytls_x.Session.Defs.{Session, Stream, P, ◌>>=◌, ◌>>◌, pure, modify, find_stream, put_stream}
use anytls_x.Session.Write.{write_control_frame, write_data_frame_shaped, early_data_frames}
use anytls_x.Session.Recv.{close_with_error}

unfoldable pub change_retired : ℕ → (Stream → Stream) → List Stream → List Stream
change_retired sid f [] = []
change_retired sid f (st ∷ sts) =
    let rest = change_retired sid f sts in (if st.id == sid then f st else st) ∷ rest

-- A change of a stream, in the map or out of it.
unfoldable pub change_stream : ℕ → (Stream → Stream) → Session → Session
unfolding change_retired
change_stream sid f s =
    on_some (find_stream sid s.streams) (record s { retired = change_retired sid f s.retired })
      λ st. record s { streams = put_stream sid (f st) s.streams }

abbrev pub refused : Error → P Written
refused err = pure (record { n = 0; error = some err })

-- s.frameSeq.Add(1), on a uint32.
abbrev pub next_seq : Stream → ℕ
next_seq st = (st.frame_seq + 1) % 2 ^ 32

-- The write of a stream without rail-switch state: its first frames are early.
unfoldable pub write_mux : Env → ℕ → Stream → List ℕ → P Written
unfolding change_stream
write_mux e sid st b = do
  modify (change_stream sid λ t. record t { frame_seq = next_seq st })
  write_data_frame_shaped e sid b (leb (next_seq st) early_data_frames)

-- Stream.Write; `expired` says that the write deadline has passed.
unfoldable pub stream_write :
    Env → (ℕ → List ℕ → P Written) → Bool → ℕ → Stream → List ℕ → P Written
unfolding write_mux
stream_write e mig_write expired sid st b =
    if expired
    then refused deadline_exceeded
    else on_error st.die_err (if st.migrating then mig_write sid b else write_mux e sid st b)
        refused

-- Stream.Close.
unfoldable pub stream_close : Env → ℕ → Stream → P (Option Error)
unfolding close_with_error
stream_close e sid st = close_with_error e sid closed_pipe st

-- reportOnce: the SYNACK goes out for the first report, with the text of an error if there is one.
unfoldable pub report : Env → ℕ → List ℕ → P (Option Error)
report e sid text = do
  r ← write_control_frame e (record { cmd = cmd_synack; sid = sid; payload = text })
  pure r.error

abbrev pub note_report : ℕ → Session → Session
note_report sid s = change_stream sid (λ t. record t { reported = true }) s

unfoldable pub handshake_success : Env → ℕ → Stream → P (Option Error)
unfolding report
handshake_success e sid st n =
    (do
      modify (note_report sid)
      if not st.reported && leb 2 n.sess.peer_version then report e sid [] else pure none)
      n

-- `err` is the text of the error, none for nil.
unfoldable pub handshake_failure : Env → ℕ → Option (List ℕ) → Stream → P (Option Error)
unfolding report
handshake_failure e sid err st n = on_some err ((do modify (note_report sid); pure none) n) λ text.
    (do
      modify (note_report sid)
      if not st.reported && leb 2 n.sess.peer_version then report e sid text else pure none)
      n
