-- ===== src/Session/Write.antt =====
-- session/session.go, the writing half: Close, writeConn, writeControlFrame, the three data-frame
-- writers, the window-update waste and the GOAWAY frame.
use anytls_x.Base.{
  ℕ, zero, suc, ◌+◌, ◌-◌, ◌*◌, ◌/◌, ◌^◌, Bool, true, false, ◌&&◌, ◌||◌, not, Option, none, some,
  List, [], ◌∷◌, ◌++◌, length, get_or, take, drop, ltb, leb, ◌==◌, if◌then◌else◌, on_error,
}
use anytls_x.Env.{
  Env, M, Error, closed_pipe, frame_too_large, Written, set_write_deadline, conn_write, conn_close,
  time_now, conn_try_lock,
}
use anytls_x.Rand.Defs.{fast_intn, fill_random}
use anytls_x.Frame.Defs.{
  Frame, encode, cmd_waste, cmd_syn, cmd_psh, max_frame_data_len, h2_max_frame_payload,
}
use anytls_x.Shaper.Defs.{
  RecordShaper, second, write_data, write_control, write_initial_flush, note_write,
}
use anytls_x.Session.Defs.{
  Session, P, ◌>>=◌, ◌>>◌, pure, lift, modify, when, session_hook, close_streams,
}

abbrev pub early_data_frames : ℕ
early_data_frames = 4

abbrev pub early_split_thresh : ℕ
early_split_thresh = 256

abbrev pub early_split_min : ℕ
early_split_min = 48

-- A shaper method, run on the session's shaper under connLock.
abbrev pub shaped_write : (RecordShaper → M (RecordShaper × Written)) → P Written
shaped_write f n =
    let r = f n.sess.shaper n.world in
    let s = n.sess in (r.0.1, record n { sess = record s { shaper = r.0.0 }; world = r.1 })

-- writeFrameBytes: a raw frame with a random payload; errors are ignored.
unfoldable pub write_frame_bytes : Env → ℕ → ℕ → ℕ → P (Unit {0})
write_frame_bytes e cmd sid n = do
  filler ← lift (fill_random e n)
  now ← lift (time_now e)
  lift (set_write_deadline (some (now + second)))
  r ← lift (conn_write e (encode cmd sid filler))
  lift (set_write_deadline none)
  pure tt

-- The state changes of Close before the connection is touched. The stream map is emptied behind the
-- streams' own teardown.
unfoldable pub bury : Session → Session
unfolding close_streams
bury s =
    let (dead, evs) = close_streams s.streams in
    record s {
      closed = true;
      idle_ready = true;
      hooked = false;
      streams = [];
      retired = s.retired ++ dead;
      events = s.events ++ ((if s.hooked then session_hook ∷ [] else []) ++ evs);
    }

unfoldable pub close_conn : Env → P (Option Error)
unfolding write_frame_bytes
close_conn e = do
  now ← lift (time_now e)
  lift (set_write_deadline (some (now - second)))
  free ← lift (conn_try_lock e)
  when free (write_frame_bytes e cmd_waste 0 10)
  lift (conn_close e)

-- Session.Close. The second call answers io.ErrClosedPipe and does nothing.
unfoldable pub close : Env → P (Option Error)
unfolding bury close_conn
close e n = if n.sess.closed then (some closed_pipe, n) else (do modify bury; close_conn e) n

-- The buffer goes out in front of `b`, in one flush.
unfoldable pub flush_buffer : Env → List ℕ → P Written
flush_buffer e b n =
    let s = n.sess in
    shaped_write (λ rs. write_initial_flush e n.padding rs (s.buffer ++ b))
      (record n { sess = record s { buffer = [] } })

unfoldable pub buffer_up : List ℕ → P Written
buffer_up b n =
    let s = n.sess in
    (record { n = length b; error = none }, record n { sess = record s { buffer = s.buffer ++ b } })

abbrev pub is_lone_syn : List ℕ → Bool
is_lone_syn b = ltb 0 (length b) && get_or b 0 0 == cmd_syn

-- writeConn behind its buffering: a SYN is shaped like headers, other control frames to control sizes.
unfoldable pub write_shaped : Env → List ℕ → Bool → P Written
write_shaped e b is_ctrl n =
    if is_ctrl && is_lone_syn b
    then shaped_write (λ rs. write_initial_flush e n.padding rs b) n
    else (if is_ctrl
        then shaped_write (λ rs. write_control e n.padding rs b) n
        else shaped_write (λ rs. write_data e rs b) n)

unfoldable pub write_conn : Env → List ℕ → Bool → P Written
unfolding flush_buffer buffer_up write_shaped
write_conn e b is_ctrl n =
    if n.sess.closed
    then (record { n = 0; error = some closed_pipe }, n)
    else (if n.sess.buffering
        then buffer_up b n
        else (if ltb 0 (length n.sess.buffer)
            then flush_buffer e b n
            else write_shaped e b is_ctrl n))

-- A control frame whose write fails closes the session.
unfoldable pub control_result : Env → ℕ → Option Error → P Written
control_result e len none n = (record { n = len; error = none }, n)
control_result e len (some err) n = (record { n = 0; error = some err }, (close e n).1)

unfoldable pub write_control_frame : Env → Frame → P Written
unfolding write_conn control_result close
write_control_frame e f =
    let len = length f.payload in
    if ltb max_frame_data_len len
    then pure (record { n = 0; error = some (frame_too_large len) })
    else (do r ← write_conn e (encode f.cmd f.sid f.payload) true; control_result e len r.error)

-- A failed data write marks the connection broken and leaves the session open.
unfoldable pub mark_broken : Option Error → P (Unit {0})
mark_broken none n = (tt, n)
mark_broken (some err) n =
    let s = n.sess in (tt, record n { sess = record s { conn_broken = true } })

unfoldable pub send_psh : Env → ℕ → List ℕ → P (Option Error)
unfolding write_conn mark_broken
send_psh e sid chunk = do
  r ← write_conn e (encode cmd_psh sid chunk) false
  mark_broken r.error
  pure r.error

-- The loop of writeDataFrame: chunks of 16384 bytes, `written` of them out so far. Each round takes a
-- byte at least, so the length of the data is fuel enough.
unfoldable pub write_data_loop : Env → ℕ → ℕ → ℕ → List ℕ → ℕ → P Written
unfolding send_psh
write_data_loop e sid total zero bytes written n = (record { n = total; error = none }, n)
write_data_loop e sid total (suc fuel) bytes written n =
    let chunk = take h2_max_frame_payload bytes in
    let sent = send_psh e sid chunk n in
    let rest =
      write_data_loop e sid total fuel (drop h2_max_frame_payload bytes) (written + length chunk)
        sent.1 in
    if length bytes == 0
    then (record { n = total; error = none }, n)
    else on_error sent.0 rest (λ err. (record { n = written; error = some err }, sent.1))

unfoldable pub write_data_frame : Env → ℕ → List ℕ → P Written
unfolding write_data_loop
write_data_frame e sid bytes = write_data_loop e sid (length bytes) (length bytes) bytes 0

-- One round of writeDataFrameSplit with `left` parts to go: the size of the next chunk. The last part,
-- and a rest too short to be cut, take everything.
unfoldable pub split_size : Env → ℕ → List ℕ → M ℕ
split_size e left bytes w =
    let max_cut = length bytes - early_split_min * (left - 1) in
    if left == 1 || leb max_cut early_split_min
    then (length bytes, w)
    else (let r = fast_intn e (max_cut - early_split_min + 1) w in (early_split_min + r.0, r.1))

-- The loop of writeDataFrameSplit over the parts left; a round that took everything is the last.
unfoldable pub split_loop : Env → ℕ → ℕ → ℕ → List ℕ → ℕ → P Written
unfolding split_size send_psh
split_loop e sid total zero bytes written n = (record { n = total; error = none }, n)
split_loop e sid total (suc left) bytes written n =
    let size = split_size e (suc left) bytes n.world in
    let chunk = take size.0 bytes in
    let sent = send_psh e sid chunk (record n { world = size.1 }) in
    let rest = split_loop e sid total left (drop size.0 bytes) (written + length chunk) sent.1 in
    on_error sent.0
      (if leb (length bytes) size.0 then (record { n = total; error = none }, sent.1) else rest)
      (λ err. (record { n = written; error = some err }, sent.1))

unfoldable pub write_data_frame_split : Env → ℕ → List ℕ → P Written
unfolding split_loop
write_data_frame_split e sid bytes =
    split_loop e sid (length bytes) (if ltb 600 (length bytes) then 3 else 2) bytes 0

unfoldable pub write_data_frame_shaped : Env → ℕ → List ℕ → Bool → P Written
unfolding write_data_frame write_data_frame_split
write_data_frame_shaped e sid bytes early =
    if not early
      || (leb (length bytes) early_split_thresh || ltb h2_max_frame_payload (length bytes))
    then write_data_frame e sid bytes
    else write_data_frame_split e sid bytes

-- nextWndInterval: a quarter of jitter to either side.
-- A sum below 2^64 as an int, where a negative one stands for "off" as 0 does.
abbrev pub int_or_zero : ℕ → ℕ
int_or_zero n = if ltb n (2 ^ 63) then n else 0

unfoldable pub next_wnd_interval : Env → ℕ → M ℕ
next_wnd_interval e base w =
    let jitter = base / 4 in
    if base == 0
    then (0, w)
    else (let r = fast_intn e (2 * jitter + 1) w in (int_or_zero (base - jitter + r.0), r.1))

-- The count that a failed write of the window-update waste left on the wire decides.
abbrev pub broken_if_partial : Written → Session → Session
broken_if_partial r s = elim r.error [
  | none ↦ s
  | some err ↦ if ltb 0 r.n then record s { conn_broken = true } else s
]

-- What follows the write of the two waste frames.
unfoldable pub note_two_wastes : Env → Written → P (Unit {0})
note_two_wastes e r = do
  lift (set_write_deadline none)
  modify (broken_if_partial r)
  noted ← shaped_write (λ rs w. let x = note_write e rs r.error w in ((x.0, r), x.1))
  pure tt

unfoldable pub write_two_wastes : Env → P (Unit {0})
write_two_wastes e = do
  one ← lift (fill_random e 6)
  two ← lift (fill_random e 6)
  now ← lift (time_now e)
  lift (set_write_deadline (some (now + second)))
  r ← lift (conn_write e (encode cmd_waste 0 one ++ encode cmd_waste 0 two))
  note_two_wastes e r

unfoldable pub write_window_update_waste : Env → P (Unit {0})
unfolding write_two_wastes
write_window_update_waste e n =
    let lock = lift (conn_try_lock e) n in
    if n.sess.closed || n.sess.conn_broken
    then (tt, n)
    else (if lock.0 then write_two_wastes e lock.1 else (tt, lock.1))
