-- ===== src/Migration/Defs.antt =====
-- session/migration.go, streamMig, and what session/stream.go has of it. A method is one step: writeMu
-- is held for its writes and each Once runs its body whole. What a method does to the session, to a
-- connection (named by a number) or to a goroutine is recorded as an act, the last one first.
use anytls_x.Base.{
  ℕ, Bool, true, false, ◌&&◌, ◌||◌, not, Option, none, some, List, [], ◌∷◌, ◌++◌, length, leb,
  if◌then◌else◌, on_some,
}
use anytls_x.Env.{Error, end_of_file}
use anytls_x.Frame.Defs.{
  cmd_migrate_ready, cmd_migrate_go, cmd_migrate_carrier, cmd_uplink_fin, encode,
}
use anytls_x.Detector.Machine.{
  HandshakeDetector, new_handshake_detector, is_ready, is_aborted, observe_uplink, observe_downlink,
}
use anytls_x.Migration.Registry.{Token}

pub data Act : Type 0 where
  -- writeControlFrame of a frame of the stream
  control : ℕ → List ℕ → Act
  -- the write of Stream.Write on the session
  mux_write : List ℕ → Act
  -- the Write of a cut-over stream on the carrier
  carrier_write : ℕ → List ℕ → Act
  -- the first frame on a carrier that was dialled
  greet_carrier : ℕ → List ℕ → Act
  -- the registry's register
  register_act : Token → Act
  -- go carrierToPipe
  pump : ℕ → Act
  pipe_write : List ℕ → Act
  pipe_close : Act
  -- N.CloseWrite and Close of a connection
  half_close : ℕ → Act
  shut_carrier : ℕ → Act
  -- close(doneCh)
  release : Act
  -- time.AfterFunc of closeCarrier
  watchdog : Act
  -- closeWithError of the stream, behind the teardown of its carrier
  end_stream : Act

pub record StreamMig : Type 0 where
  pub sid : ℕ
  pub detector : Option HandshakeDetector
  pub write_conn : Option ℕ
  pub carrier : Option ℕ
  pub stream_died : Bool
  pub closed_once : Bool
  pub triggered : Bool
  pub taps_done : Bool
  pub payload_started : Bool
  pub carrier_ready : Bool
  pub go_seen : Bool
  pub cut_over : Bool
  pub uplink_fin_seen : Bool
  pub write_half_closed : Bool
  pub read_half_closed : Bool
  pub acts : List Act

-- newStreamMig; `min_bulk` and `tls_only` are the session's.
unfoldable pub new_stream_mig : Bool → ℕ → Bool → ℕ → StreamMig
unfolding new_handshake_detector
new_stream_mig is_client min_bulk tls_only sid = record {
  sid = sid;
  detector = if is_client then none else some (new_handshake_detector min_bulk tls_only);
  write_conn = none;
  carrier = none;
  stream_died = false;
  closed_once = false;
  triggered = false;
  taps_done = false;
  payload_started = false;
  carrier_ready = false;
  go_seen = false;
  cut_over = false;
  uplink_fin_seen = false;
  write_half_closed = false;
  read_half_closed = false;
  acts = [];
}

abbrev pub act : Act → StreamMig → StreamMig
act a m = record m { acts = a ∷ m.acts }

-- The verdict of a tap.
unfoldable pub note_aborted : HandshakeDetector → StreamMig → StreamMig
note_aborted d m =
    if is_aborted d
    then record m { detector = some d; taps_done = true }
    else record m { detector = some d }

-- `drawn` is what rand.Read gives for a token, none for its error.
unfoldable pub server_maybe_trigger : Bool → Option Token → StreamMig → StreamMig
server_maybe_trigger has_registry drawn m = on_some m.detector m λ d.
    if m.taps_done || not (is_ready d) || m.triggered
    then m
    else (let m' = record m { triggered = true; taps_done = true } in
        on_some drawn m' λ tok.
          act (control cmd_migrate_ready tok)
            (if has_registry then act (register_act tok) m' else m'))

unfoldable pub observe_server_read : Bool → Option Token → List ℕ → StreamMig → StreamMig
unfolding server_maybe_trigger note_aborted
observe_server_read has_registry drawn p m = on_some m.detector m λ d.
    if m.taps_done || not m.payload_started
    then m
    else server_maybe_trigger has_registry drawn (note_aborted (observe_uplink p d) m)

unfoldable pub observe_server_write : List ℕ → StreamMig → StreamMig
unfolding note_aborted
observe_server_write p m =
    on_some m.detector m
      λ d. if m.taps_done || not m.payload_started then m else note_aborted (observe_downlink p d) m

-- Stream.migWrite; only a server's streamMig has a detector.
unfoldable pub mig_write : Bool → Option Token → List ℕ → StreamMig → StreamMig
unfolding observe_server_write server_maybe_trigger
mig_write has_registry drawn b m =
    on_some m.write_conn
      (server_maybe_trigger has_registry drawn (act (mux_write b) (observe_server_write b m)))
      λ conn. act (carrier_write conn b) m

unfoldable pub begin_migration_payload : StreamMig → StreamMig
begin_migration_payload m = record m { payload_started = true }

unfoldable pub close_carrier : StreamMig → StreamMig
close_carrier m =
    if m.closed_once
    then m
    else (let m' = record m { closed_once = true } in
        act release (on_some m'.carrier m' λ conn. act (shut_carrier conn) m'))

unfoldable pub maybe_full_close_carrier : StreamMig → StreamMig
unfolding close_carrier
maybe_full_close_carrier m =
    if m.write_half_closed && m.read_half_closed then close_carrier m else m

-- The half-close of the write direction, for the first caller only.
unfoldable pub close_write_half : ℕ → StreamMig → StreamMig
close_write_half conn m =
    if m.write_half_closed then m else act (half_close conn) (record m { write_half_closed = true })

unfoldable pub close_on_stream_end : StreamMig → StreamMig
unfolding close_carrier maybe_full_close_carrier close_write_half
close_on_stream_end m =
    on_some m.write_conn (close_carrier m)
      λ conn. act watchdog (maybe_full_close_carrier (close_write_half conn m))

-- The part of the stream's closeWithError that is the carrier's, under dieOnce.
unfoldable pub end_of_stream : StreamMig → StreamMig
unfolding close_on_stream_end
end_of_stream m =
    if m.stream_died
    then m
    else act end_stream (close_on_stream_end (record m { stream_died = true }))

unfoldable pub close_write : StreamMig → StreamMig
unfolding end_of_stream maybe_full_close_carrier close_write_half
close_write m =
    on_some m.write_conn (end_of_stream m)
      λ conn. if m.write_half_closed then m else maybe_full_close_carrier (close_write_half conn m)

unfoldable pub maybe_client_cutover : StreamMig → StreamMig
maybe_client_cutover m =
    if not m.carrier_ready || not m.go_seen || m.cut_over
    then m
    else (let m' = record m { cut_over = true } in
        let switched =
          if m.stream_died
          then m'
          else act (control cmd_uplink_fin []) (record m' { write_conn = m.carrier }) in
        on_some m.carrier switched λ conn. act (pump conn) switched)

unfoldable pub client_on_migrate_go : StreamMig → StreamMig
unfolding maybe_client_cutover
client_on_migrate_go m = maybe_client_cutover (record m { go_seen = true })

-- The carrier's first frame: the token, with `filler` behind it.
unfoldable pub carrier_frame : ℕ → Token → List ℕ → List ℕ
carrier_frame sid tok filler = encode cmd_migrate_carrier sid (tok ++ filler)

-- `dialled` is what dialOut gives and `wrote` says that the write of the frame succeeds.
unfoldable pub client_start_carrier : Token → List ℕ → Option ℕ → Bool → StreamMig → StreamMig
unfolding maybe_client_cutover close_carrier carrier_frame
client_start_carrier tok filler dialled wrote m = on_some dialled m λ conn.
    let m' =
      act (greet_carrier conn (carrier_frame m.sid tok filler))
        (record m { carrier = some conn }) in
    if wrote then maybe_client_cutover (record m' { carrier_ready = true }) else close_carrier m'

unfoldable pub server_attach_carrier : ℕ → StreamMig → StreamMig
server_attach_carrier conn m = if m.stream_died then act (shut_carrier conn) m else record m {
  carrier = some conn;
  carrier_ready = true;
  write_conn = some conn;
  acts = control cmd_migrate_go [] ∷ m.acts;
}

unfoldable pub server_on_uplink_fin : StreamMig → StreamMig
server_on_uplink_fin m =
    if m.uplink_fin_seen
    then m
    else (let m' = record m { uplink_fin_seen = true } in
        on_some m.carrier m' λ conn. act (pump conn) m')

-- What one Read of the carrier gives, and what the Write of the pipe answers to it.
pub record CarrierRead : Type 0 where
  pub bytes : List ℕ
  pub read_error : Option Error
  pub pipe_error : Option Error

-- `readErr` of one round, none when the loop goes on.
unfoldable pub pump_error : CarrierRead → Option Error
pump_error r =
    if leb 1 (length r.bytes) then on_some r.pipe_error r.read_error some else r.read_error

unfoldable pub pump_bytes : CarrierRead → StreamMig → StreamMig
pump_bytes r m = if leb 1 (length r.bytes) then act (pipe_write r.bytes) m else m

-- The loop of carrierToPipe, over what Read gives call by call; it waits in Read behind the last one.
unfoldable pub pump_loop : List CarrierRead → StreamMig → StreamMig × Option Error
unfolding pump_error pump_bytes
pump_loop [] m = (m, none)
pump_loop (r ∷ rs) m =
    let m' = pump_bytes r m in
    let rest = pump_loop rs m' in on_some (pump_error r) rest λ err. (m', some err)

-- Behind the loop: a clean end retires the read half, any other error tears the stream down.
unfoldable pub finish_pump : Error → StreamMig → StreamMig
unfolding close_carrier maybe_full_close_carrier end_of_stream
finish_pump end_of_file m =
    maybe_full_close_carrier (act pipe_close (record m { read_half_closed = true }))
finish_pump _ m = end_of_stream (close_carrier m)

unfoldable pub carrier_to_pipe : List CarrierRead → StreamMig → StreamMig
unfolding pump_loop finish_pump
carrier_to_pipe reads m =
    let r = pump_loop reads m in on_some (r.1) (r.0) λ err. finish_pump err (r.0)
