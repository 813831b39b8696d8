-- ===== src/Detector/Count.antt =====
-- session/migration_detect.go, handshakeDetector: what its states say about its flags and counters,
-- kept by every observation.
use anytls_x.Base.{
  ℕ, ◌+◌, ◌≤◌, ◌≡◌, refl, Bool, true, false, ◌⊎◌, List, [], ◌∷◌, arith, length, ◌==◌, if_cases,
}
use anytls_x.Detector.Kept.{feed-Keeps}
use anytls_x.Detector.Machine.{
  DetectState, init, client_hello, server_hello, handshake_done, bulk, ready, aborted,
  HandshakeDetector, add_bulk, abort, maybe_handshake_done, on_uplink_record, on_downlink_record,
  scan_uplink, scan_downlink, first_uplink, add_downlink, uplink_in, downlink_in,
  tls_record_handshake,
}

-- ServerHello, then a record of the server, then one of the client.
abbrev HandshakeSeen : Bool → ℕ → Bool → Type 0
HandshakeSeen hello flight client = (hello ≡ true) × (1 ≤ flight) × (client ≡ true)

-- The handshake gate, or else the volume gate.
abbrev pub GateMet : HandshakeDetector → Type 0
GateMet d =
    (HandshakeSeen d.server_hello_seen d.server_flight_after d.client_flight_after
      × (d.min_bulk ≤ d.downlink_since_done))
    ⊎ ((d.tls_only ≡ false) × (d.min_bulk ≤ d.bulk_bytes))

-- What each state means for the flags and counters.
unfoldable pub Phase : DetectState → Bool → ℕ → Bool → Bool → Type 0 → Type 0
Phase init hello flight client only met = Unit
Phase client_hello hello flight client only met = Unit
Phase server_hello hello flight client only met = hello ≡ true
Phase handshake_done hello flight client only met = HandshakeSeen hello flight client
Phase bulk hello flight client only met = only ≡ false
Phase ready hello flight client only met = met
Phase aborted hello flight client only met = Unit

-- After `u` bytes up and `v` bytes down, with the minimum `m` and the option `t`.
unfoldable pub Counted : ℕ → Bool → ℕ → ℕ → HandshakeDetector → Type 0
Counted m t u v d =
    (d.min_bulk ≡ m)
    × (d.tls_only ≡ t)
    × (d.bulk_bytes ≤ u + v)
    × (d.downlink_since_done ≤ v)
    × Phase d.state d.server_hello_seen d.server_flight_after d.client_flight_after d.tls_only
        (GateMet d)

maybe_handshake_done-Counted :
    (m : ℕ) (t : Bool) (u v : ℕ) (d : HandshakeDetector)
    → Counted m t u v d
    → Counted m t u v (maybe_handshake_done d)
unfolding maybe_handshake_done Counted Phase
maybe_handshake_done-Counted m t u v d h = ground arith

on_uplink_record-Counted :
    (m : ℕ) (t : Bool) (u v x n c : ℕ) (d : HandshakeDetector)
    → Counted m t u v d
    → Counted m t u v (on_uplink_record x n c d)
unfolding on_uplink_record Counted Phase
on_uplink_record-Counted m t u v x n c d h = ground arith

on_downlink_record-Counted :
    (m : ℕ) (t : Bool) (u v x n c : ℕ) (d : HandshakeDetector)
    → Counted m t u v d
    → Counted m t u v (on_downlink_record x n c d)
unfolding on_downlink_record maybe_handshake_done Counted Phase
on_downlink_record-Counted m t u v x n c d h = ground arith

scan_uplink-Counted :
    (m : ℕ) (t : Bool) (u v : ℕ) (p : List ℕ) (d : HandshakeDetector)
    → Counted m t u v d
    → Counted m t u v (scan_uplink p d)
unfolding scan_uplink Counted Phase
scan_uplink-Counted m t u v p d h =
    feed-Keeps on_uplink_record (Counted m t u v) (on_uplink_record-Counted m t u v) p d.up_scan d h

scan_downlink-Counted :
    (m : ℕ) (t : Bool) (u v : ℕ) (p : List ℕ) (d : HandshakeDetector)
    → Counted m t u v d
    → Counted m t u v (scan_downlink p d)
unfolding scan_downlink Counted Phase
scan_downlink-Counted m t u v p d h =
    feed-Keeps on_downlink_record (Counted m t u v) (on_downlink_record-Counted m t u v) p
      d.down_scan d h

pub more_up :
    (m : ℕ) (t : Bool) (u v i : ℕ) (d : HandshakeDetector)
    → Counted m t u v d
    → Counted m t (u + i) v d
unfolding Counted
more_up m t u v i d h = (h.0, h.1, omega (arith, h.2), h.3, h.4)

pub more_down :
    (m : ℕ) (t : Bool) (u v i : ℕ) (d : HandshakeDetector)
    → Counted m t u v d
    → Counted m t u (v + i) d
unfolding Counted
more_down m t u v i d h = (h.0, h.1, omega (arith, h.2), omega (arith, h.3), h.4)

pub Counted-le :
    (m : ℕ) (t : Bool) (u u' v v' : ℕ) (d : HandshakeDetector)
    → u ≤ u'
    → v ≤ v'
    → Counted m t u v d
    → Counted m t u' v' d
unfolding Counted
Counted-le m t u u' v v' d i j h = (h.0, h.1, omega (arith, h.2, i, j), omega (arith, h.3, j), h.4)

add_bulk-Counted :
    (m : ℕ) (t : Bool) (u v u' v' n : ℕ) (d : HandshakeDetector)
    → Counted m t u v d
    → d.state ≡ bulk
    → d.tls_only ≡ false
    → u + v + n ≤ u' + v'
    → v ≤ v'
    → Counted m t u' v' (add_bulk n d)
unfolding add_bulk Counted Phase
add_bulk-Counted m t u v u' v' n d h e k l j = ground arith

add_downlink-Counted :
    (m : ℕ) (t : Bool) (u v n : ℕ) (d : HandshakeDetector)
    → Counted m t u v d
    → d.state ≡ handshake_done
    → Counted m t u (v + n) (add_downlink n d)
unfolding add_downlink Counted Phase
add_downlink-Counted m t u v n d h e = ground arith

entered :
    (m : ℕ) (t : Bool) (u v : ℕ) (d : HandshakeDetector)
    → Counted m t u v d
    → Counted m t u v (record d { state = client_hello }) × Counted m t u v (abort d)
unfolding Counted Phase
entered m t u v d h = ((h.0, h.1, h.2, h.3, tt), (h.0, h.1, h.2, h.3, tt))

began_bulk :
    (m : ℕ) (t : Bool) (u v : ℕ) (d : HandshakeDetector)
    → Counted m t u v d
    → d.tls_only ≡ false
    → Counted m t u v (record d { state = bulk })
unfolding Counted Phase
began_bulk m t u v d h k = (h.0, h.1, h.2, h.3, k)

in_bulk :
    (m : ℕ) (t : Bool) (u v : ℕ) (d : HandshakeDetector)
    → Counted m t u v d
    → d.state ≡ bulk
    → d.tls_only ≡ false
unfolding Counted Phase
in_bulk m t u v d h e = ground arith

first_uplink-Counted :
    (m : ℕ) (t : Bool) (u v : ℕ) (p : List ℕ) (d : HandshakeDetector)
    → Counted m t u v d
    → Counted m t (u + length p) v (first_uplink p d)
unfolding first_uplink
first_uplink-Counted m t u v [] d h = more_up m t u v 0 d h
first_uplink-Counted m t u v (c ∷ p) d h =
    if_cases (Counted m t (u + length (c ∷ p)) v) (c == tls_record_handshake) _ _
      (λ e.
        scan_uplink-Counted m t (u + length (c ∷ p)) v (c ∷ p) (record d { state = client_hello })
          (entered m t (u + length (c ∷ p)) v d (more_up m t u v (length (c ∷ p)) d h)).0)
      (λ e.
        if_cases (Counted m t (u + length (c ∷ p)) v) d.tls_only _ _
          (λ x. (entered m t (u + length (c ∷ p)) v d (more_up m t u v (length (c ∷ p)) d h)).1)
          (λ x.
            add_bulk-Counted m t u v (u + length (c ∷ p)) v (length (c ∷ p))
              (record d { state = bulk }) (began_bulk m t u v d h x) refl x (omega arith)
              (omega arith)))

pub uplink_in-Counted :
    (st : DetectState) (m : ℕ) (t : Bool) (u v : ℕ) (p : List ℕ) (d : HandshakeDetector)
    → d.state ≡ st
    → Counted m t u v d
    → Counted m t (u + length p) v (uplink_in st p d)
unfolding uplink_in
uplink_in-Counted aborted m t u v p d e h = more_up m t u v (length p) d h
uplink_in-Counted handshake_done m t u v p d e h = more_up m t u v (length p) d h
uplink_in-Counted ready m t u v p d e h = more_up m t u v (length p) d h
uplink_in-Counted bulk m t u v p d e h =
    add_bulk-Counted m t u v (u + length p) v (length p) d h e (in_bulk m t u v d h e) (omega arith)
      (omega arith)
uplink_in-Counted init m t u v p d e h = first_uplink-Counted m t u v p d h
uplink_in-Counted client_hello m t u v p d e h =
    scan_uplink-Counted m t (u + length p) v p d (more_up m t u v (length p) d h)
uplink_in-Counted server_hello m t u v p d e h =
    scan_uplink-Counted m t (u + length p) v p d (more_up m t u v (length p) d h)

pub downlink_in-Counted :
    (st : DetectState) (m : ℕ) (t : Bool) (u v : ℕ) (p : List ℕ) (d : HandshakeDetector)
    → d.state ≡ st
    → Counted m t u v d
    → Counted m t u (v + length p) (downlink_in st p d)
unfolding downlink_in
downlink_in-Counted aborted m t u v p d e h = more_down m t u v (length p) d h
downlink_in-Counted handshake_done m t u v p d e h = add_downlink-Counted m t u v (length p) d h e
downlink_in-Counted ready m t u v p d e h = more_down m t u v (length p) d h
downlink_in-Counted bulk m t u v p d e h =
    add_bulk-Counted m t u v u (v + length p) (length p) d h e (in_bulk m t u v d h e) (omega arith)
      (omega arith)
downlink_in-Counted init m t u v p d e h =
    scan_downlink-Counted m t u (v + length p) p d (more_down m t u v (length p) d h)
downlink_in-Counted client_hello m t u v p d e h =
    scan_downlink-Counted m t u (v + length p) p d (more_down m t u v (length p) d h)
downlink_in-Counted server_hello m t u v p d e h =
    scan_downlink-Counted m t u (v + length p) p d (more_down m t u v (length p) d h)
