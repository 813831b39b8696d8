-- ===== src/Detector/Machine.antt =====
-- session/migration_detect.go, handshakeDetector: the states between the first uplink byte and the
-- verdict.
use anytls_x.Base.{
  ℕ, ◌+◌, ◌*◌, Bool, true, false, ◌&&◌, ◌||◌, List, [], ◌∷◌, length, ltb, leb, ◌==◌, if◌then◌else◌,
}
use anytls_x.Detector.Scanner.{RecordScanner, fresh_scanner, feed}

abbrev pub tls_record_handshake : ℕ
tls_record_handshake = 0x16

abbrev pub tls_handshake_server_hello : ℕ
tls_handshake_server_hello = 0x02

abbrev pub mig_min_bulk_bytes : ℕ
mig_min_bulk_bytes = 64 * 1024

abbrev pub mig_min_bulk_floor : ℕ
mig_min_bulk_floor = 2 * 1024

unfoldable pub resolve_min_bulk : ℕ → ℕ
resolve_min_bulk n =
    if n == 0
    then mig_min_bulk_bytes
    else (if ltb n mig_min_bulk_floor then mig_min_bulk_floor else n)

pub data DetectState : Type 0 where
  init client_hello server_hello handshake_done bulk ready aborted : DetectState

pub record HandshakeDetector : Type 0 where
  pub state : DetectState
  pub up_scan : RecordScanner
  pub down_scan : RecordScanner
  pub server_hello_seen : Bool
  pub server_flight_after : ℕ
  pub client_flight_after : Bool
  pub downlink_since_done : ℕ
  pub bulk_bytes : ℕ
  pub min_bulk : ℕ
  pub tls_only : Bool

-- newHandshakeDetector, and the option that newStreamMig (session/migration.go) sets right behind it.
unfoldable pub new_handshake_detector : ℕ → Bool → HandshakeDetector
unfolding resolve_min_bulk
new_handshake_detector min_bulk tls_only = record {
  state = init;
  up_scan = fresh_scanner;
  down_scan = fresh_scanner;
  server_hello_seen = false;
  server_flight_after = 0;
  client_flight_after = false;
  downlink_since_done = 0;
  bulk_bytes = 0;
  min_bulk = resolve_min_bulk min_bulk;
  tls_only = tls_only;
}

unfoldable pub is_ready : HandshakeDetector → Bool
is_ready d = elim d.state [ ready ↦ true | _ ↦ false ]

unfoldable pub is_aborted : HandshakeDetector → Bool
is_aborted d = elim d.state [ aborted ↦ true | _ ↦ false ]

abbrev pub abort : HandshakeDetector → HandshakeDetector
abort d = record d { state = aborted }

unfoldable pub add_bulk : ℕ → HandshakeDetector → HandshakeDetector
add_bulk n d =
    let total = d.bulk_bytes + n in
    if leb d.min_bulk total
    then record d { bulk_bytes = total; state = ready }
    else record d { bulk_bytes = total }

-- Called in the state `server_hello` only.
unfoldable pub maybe_handshake_done : HandshakeDetector → HandshakeDetector
maybe_handshake_done d = elim d.state [
  | server_hello ↦
      if leb 1 d.server_flight_after && d.client_flight_after
      then record d { state = handshake_done; downlink_since_done = 0 }
      else d
  | _ ↦ d
]

-- The uplink callback: a record begun after ServerHello is the client's flight.
unfoldable pub on_uplink_record : ℕ → ℕ → ℕ → HandshakeDetector → HandshakeDetector
unfolding maybe_handshake_done
on_uplink_record rec_type len first d = elim d.state [
  | server_hello ↦ maybe_handshake_done (record d { client_flight_after = true })
  | _ ↦ d
]

-- The downlink callback: ServerHello, then the server's flight; a second handshake record is TLS 1.2.
unfoldable pub on_downlink_record : ℕ → ℕ → ℕ → HandshakeDetector → HandshakeDetector
unfolding maybe_handshake_done
on_downlink_record rec_type len first d = elim d.state [
  | client_hello ↦
      if rec_type == tls_record_handshake && (first == tls_handshake_server_hello || len == 0)
      then record d { state = server_hello; server_hello_seen = true }
      else abort d
  | server_hello ↦
      if rec_type == tls_record_handshake
      then abort d
      else maybe_handshake_done (record d { server_flight_after = d.server_flight_after + 1 })
  | _ ↦ d
]

unfoldable pub scan_uplink : List ℕ → HandshakeDetector → HandshakeDetector
unfolding on_uplink_record feed
scan_uplink p d =
    let r = feed on_uplink_record p d.up_scan d in let d' = r.1 in record d' { up_scan = r.0 }

unfoldable pub scan_downlink : List ℕ → HandshakeDetector → HandshakeDetector
unfolding on_downlink_record feed
scan_downlink p d =
    let r = feed on_downlink_record p d.down_scan d in let d' = r.1 in record d' { down_scan = r.0 }

-- The first payload byte decides between the handshake gate and the volume gate.
unfoldable pub first_uplink : List ℕ → HandshakeDetector → HandshakeDetector
unfolding add_bulk scan_uplink
first_uplink [] d = d
first_uplink (c ∷ p) d =
    if c == tls_record_handshake
    then scan_uplink (c ∷ p) (record d { state = client_hello })
    else (if d.tls_only then abort d else add_bulk (length (c ∷ p)) (record d { state = bulk }))

-- The switch of ObserveUplink on the state.
unfoldable pub uplink_in : DetectState → List ℕ → HandshakeDetector → HandshakeDetector
unfolding first_uplink
uplink_in aborted p d = d
uplink_in handshake_done p d = d
uplink_in ready p d = d
uplink_in bulk p d = add_bulk (length p) d
uplink_in init p d = first_uplink p d
uplink_in client_hello p d = scan_uplink p d
uplink_in server_hello p d = scan_uplink p d

unfoldable pub observe_uplink : List ℕ → HandshakeDetector → HandshakeDetector
unfolding uplink_in
observe_uplink p d = uplink_in d.state p d

unfoldable pub add_downlink : ℕ → HandshakeDetector → HandshakeDetector
add_downlink n d =
    let total = d.downlink_since_done + n in
    if leb d.min_bulk total
    then record d { downlink_since_done = total; state = ready }
    else record d { downlink_since_done = total }

-- The switch of ObserveDownlink on the state.
unfoldable pub downlink_in : DetectState → List ℕ → HandshakeDetector → HandshakeDetector
unfolding add_bulk add_downlink scan_downlink
downlink_in aborted p d = d
downlink_in ready p d = d
downlink_in bulk p d = add_bulk (length p) d
downlink_in handshake_done p d = add_downlink (length p) d
downlink_in init p d = scan_downlink p d
downlink_in client_hello p d = scan_downlink p d
downlink_in server_hello p d = scan_downlink p d

unfoldable pub observe_downlink : List ℕ → HandshakeDetector → HandshakeDetector
unfolding downlink_in
observe_downlink p d = downlink_in d.state p d

-- What the stream lets the detector see, in order.
pub data Observation : Type 0 where
  up : List ℕ → Observation
  down : List ℕ → Observation

unfoldable pub observe : Observation → HandshakeDetector → HandshakeDetector
unfolding observe_uplink observe_downlink
observe (up p) d = observe_uplink p d
observe (down p) d = observe_downlink p d

unfoldable pub observe_all : List Observation → HandshakeDetector → HandshakeDetector
unfolding observe
observe_all [] d = d
observe_all (o ∷ os) d = observe_all os (observe o d)
