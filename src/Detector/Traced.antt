-- ===== src/Detector/Traced.antt =====
-- session/migration_detect.go, handshakeDetector: what its states say about the records of the server.
use anytls_x.Base.{
  ℕ, ◌+◌, ◌≡◌, refl, sym, ap, ◌∙◌, subst, Bool, true, false, List, [], ◌∷◌, ◌++◌, append_assoc,
  append-nil, arith, length, ◌==◌, if_cases, inl, inr,
}
use anytls_x.Detector.Scanner.{RecordScanner, fresh_scanner, feed}
use anytls_x.Detector.Cuts.{feed-append}
use anytls_x.Detector.Kept.{feed-Keeps}
use anytls_x.Detector.Paired.{feed-Matches}
use anytls_x.Detector.Records.{
  TlsRecord, log_record, records_of, HelloThen, HasHandshake, HelloThen-start, HelloThen-more,
  HelloThen-HasHandshake, HasHandshake-more,
}
use anytls_x.Detector.Machine.{
  DetectState, init, client_hello, server_hello, handshake_done, bulk, ready, aborted,
  HandshakeDetector, add_bulk, maybe_handshake_done, on_uplink_record, on_downlink_record,
  scan_uplink, scan_downlink, first_uplink, add_downlink, uplink_in, downlink_in,
  tls_record_handshake, Observation, up, down, observe, observe_all, observe_uplink,
  observe_downlink, new_handshake_detector,
}

-- What each state means for the records of the server so far.
unfoldable Trace : DetectState → Bool → ℕ → List TlsRecord → Type 0
Trace init seen k log = (seen ≡ false) × (k ≡ 0)
Trace client_hello seen k log = (seen ≡ false) × (k ≡ 0)
Trace server_hello seen k log = HelloThen k log
Trace handshake_done seen k log = HasHandshake log
Trace bulk seen k log = seen ≡ false
Trace ready seen k log = seen ≡ true → HasHandshake log
Trace aborted seen k log = Unit

abbrev TraceOf : HandshakeDetector → List TlsRecord → Type 0
TraceOf d log = Trace d.state d.server_hello_seen d.server_flight_after log

on_both : ℕ → ℕ → ℕ → HandshakeDetector × List TlsRecord → HandshakeDetector × List TlsRecord
on_both t n c r = (on_downlink_record t n c r.0, log_record t n c r.1)

on_both-Trace :
    (t n c : ℕ) (r : HandshakeDetector × List TlsRecord)
    → TraceOf r.0 r.1
    → TraceOf (on_both t n c r).0 (on_both t n c r).1
unfolding on_both on_downlink_record maybe_handshake_done Trace
on_both-Trace t n c r h = ground (
  arith,
  HelloThen-start r.1 (t, n, c),
  HelloThen-more r.0.server_flight_after r.1 (t, n, c),
  HelloThen-HasHandshake (r.0.server_flight_after + 1) (log_record t n c r.1),
  HasHandshake-more r.1 (t, n, c),
)

on_uplink_record-Trace :
    (log : List TlsRecord) (t n c : ℕ) (d : HandshakeDetector)
    → TraceOf d log
    → TraceOf (on_uplink_record t n c d) log
unfolding on_uplink_record maybe_handshake_done Trace
on_uplink_record-Trace log t n c d h =
    ground (arith, HelloThen-HasHandshake d.server_flight_after log)

-- While the detector scans, its downlink scanner has read the whole stream.
unfoldable Linked : DetectState → Type 0 → Type 0
Linked init P = P
Linked client_hello P = P
Linked server_hello P = P
Linked handshake_done P = Unit
Linked bulk P = Unit
Linked ready P = Unit
Linked aborted P = Unit

Linked-of : (st : DetectState) (P : Type 0) → P → Linked st P
unfolding Linked
Linked-of init P h = h
Linked-of client_hello P h = h
Linked-of server_hello P h = h
Linked-of handshake_done P h = tt
Linked-of bulk P h = tt
Linked-of ready P h = tt
Linked-of aborted P h = tt

scanner_of : List ℕ → RecordScanner
scanner_of p = (feed log_record p fresh_scanner []).0

-- After the bytes `p` of the server.
abbrev Traced : List ℕ → HandshakeDetector → Type 0
Traced p d = TraceOf d (records_of p) × Linked d.state (d.down_scan ≡ scanner_of p)

feed-records_of :
    (p q : List ℕ)
    → feed log_record (p ++ q) fresh_scanner [] ≡ feed log_record q (scanner_of p) (records_of p)
unfolding records_of scanner_of
feed-records_of p q = (feed-append log_record p q fresh_scanner [] (inr (inl (omega arith)))).1

on_uplink_record-Traced :
    (p : List ℕ) (t n c : ℕ) (d : HandshakeDetector)
    → Traced p d
    → Traced p (on_uplink_record t n c d)
unfolding on_uplink_record maybe_handshake_done Linked
on_uplink_record-Traced p t n c d h =
    (on_uplink_record-Trace (records_of p) t n c d h.0, ground (arith, h.1))

scan_uplink-Traced :
    (p q : List ℕ) (d : HandshakeDetector) → Traced p d → Traced p (scan_uplink q d)
unfolding scan_uplink
scan_uplink-Traced p q d h =
    feed-Keeps on_uplink_record (Traced p) (on_uplink_record-Traced p) q d.up_scan d h

-- A scan goes on where the stream was left.
scan_downlink-Traced :
    (p q : List ℕ) (d : HandshakeDetector)
    → TraceOf d (records_of p)
    → d.down_scan ≡ scanner_of p
    → Traced (p ++ q) (scan_downlink q d)
unfolding scan_downlink
scan_downlink-Traced p q d h link =
    let r = feed on_both q d.down_scan (d, records_of p) in
    let mine : feed on_downlink_record q d.down_scan d ≡ (r.0, r.1.0) =
      feed-Matches on_both on_downlink_record (λ x. x.0) (λ t n c s. unfold on_both in refl) q
        d.down_scan (d, records_of p) in
    let logged : feed log_record q d.down_scan (records_of p) ≡ (r.0, r.1.1) =
      feed-Matches on_both log_record (λ x. x.1) (λ t n c s. unfold on_both in refl) q d.down_scan
        (d, records_of p) in
    let whole : feed log_record (p ++ q) fresh_scanner [] ≡ (r.0, r.1.1) =
      feed-records_of p q ∙ ap (λ x. feed log_record q x (records_of p)) (sym link) ∙ logged in
    let trace : TraceOf r.1.0 r.1.1 =
      feed-Keeps on_both (λ x. TraceOf x.0 x.1) on_both-Trace q d.down_scan (d, records_of p) h in
    let log_same : records_of (p ++ q) ≡ r.1.1 = unfold records_of in ap (λ x. x.1) whole in
    let scan_same : scanner_of (p ++ q) ≡ r.0 = unfold scanner_of in ap (λ x. x.0) whole in
    let scanned : RecordScanner × HandshakeDetector → HandshakeDetector =
      λ x. let d' = x.1 in record d' { down_scan = x.0 } in
    subst (λ x. Traced (p ++ q) (scanned x)) (sym mine)
      (subst (TraceOf r.1.0) (sym log_same) trace, Linked-of _ _ (sym scan_same))

-- Beyond the handshake the records of the server only grow.
grown :
    (P : List TlsRecord → Type 0)
    → ((log : List TlsRecord) (t n c : ℕ) → P log → P (log_record t n c log))
    → (p q : List ℕ) → P (records_of p)
    → P (records_of (p ++ q))
grown P more p q h =
    let same : records_of (p ++ q) ≡ (feed log_record q (scanner_of p) (records_of p)).1 =
      unfold records_of in ap (λ x. x.1) (feed-records_of p q) in
    subst P (sym same)
      (feed-Keeps log_record P (λ t n c log k. more log t n c k) q (scanner_of p) (records_of p) h)

HasHandshake-grown :
    (p q : List ℕ) → HasHandshake (records_of p) → HasHandshake (records_of (p ++ q))
HasHandshake-grown p q = grown HasHandshake (λ log t n c h. HasHandshake-more log (t, n, c) h) p q

add_bulk-Traced :
    (p : List ℕ) (n : ℕ) (d : HandshakeDetector)
    → d.state ≡ bulk
    → d.server_hello_seen ≡ false
    → Traced p (add_bulk n d)
unfolding add_bulk Trace Linked
add_bulk-Traced p n d e h = ground (arith, e, h)

add_downlink-Traced :
    (p : List ℕ) (n : ℕ) (d : HandshakeDetector)
    → d.state ≡ handshake_done
    → HasHandshake (records_of p)
    → Traced p (add_downlink n d)
unfolding add_downlink Trace Linked
add_downlink-Traced p n d e h = ground (arith, e, h)

first_uplink-Traced :
    (p q : List ℕ) (d : HandshakeDetector)
    → d.state ≡ init
    → Traced p d
    → Traced p (first_uplink q d)
unfolding first_uplink Trace Linked
first_uplink-Traced p [] d e h = h
first_uplink-Traced p (c ∷ q) d e h =
    let at =
      subst (λ st. Trace st d.server_hello_seen d.server_flight_after (records_of p)) e h.0 in
    if_cases (Traced p) (c == tls_record_handshake) _ _
      (λ _.
        scan_uplink-Traced p (c ∷ q) (record d { state = client_hello })
          (at, subst (λ st. Linked st (d.down_scan ≡ scanner_of p)) e h.1))
      λ _.
        if_cases (Traced p) d.tls_only _ _ (λ _. (tt, tt))
          λ _. add_bulk-Traced p (length (c ∷ q)) (record d { state = bulk }) refl at.0

uplink_in-Traced :
    (st : DetectState) (p q : List ℕ) (d : HandshakeDetector)
    → d.state ≡ st
    → Traced p d
    → Traced p (uplink_in st q d)
unfolding uplink_in Trace
uplink_in-Traced aborted p q d e h = h
uplink_in-Traced handshake_done p q d e h = h
uplink_in-Traced ready p q d e h = h
uplink_in-Traced bulk p q d e h =
    add_bulk-Traced p (length q) d e
      (subst (λ st. Trace st d.server_hello_seen d.server_flight_after (records_of p)) e h.0)
uplink_in-Traced init p q d e h = first_uplink-Traced p q d e h
uplink_in-Traced client_hello p q d e h = scan_uplink-Traced p q d h
uplink_in-Traced server_hello p q d e h = scan_uplink-Traced p q d h

downlink_in-Traced :
    (st : DetectState) (p q : List ℕ) (d : HandshakeDetector)
    → d.state ≡ st
    → Trace st d.server_hello_seen d.server_flight_after (records_of p)
    → Linked st (d.down_scan ≡ scanner_of p)
    → Traced (p ++ q) (downlink_in st q d)
unfolding downlink_in Trace Linked
downlink_in-Traced aborted p q d e h l = ground (arith, e)
downlink_in-Traced ready p q d e h l = (
  subst (λ st. Trace st d.server_hello_seen d.server_flight_after (records_of (p ++ q))) (sym e)
      (λ seen. HasHandshake-grown p q (h seen)),
  subst (λ st. Linked st (d.down_scan ≡ scanner_of (p ++ q))) (sym e) tt,
)
downlink_in-Traced bulk p q d e h l = add_bulk-Traced (p ++ q) (length q) d e h
downlink_in-Traced handshake_done p q d e h l =
    add_downlink-Traced (p ++ q) (length q) d e (HasHandshake-grown p q h)
downlink_in-Traced init p q d e h l =
    scan_downlink-Traced p q d
      (subst (λ st. Trace st d.server_hello_seen d.server_flight_after (records_of p)) (sym e) h) l
downlink_in-Traced client_hello p q d e h l =
    scan_downlink-Traced p q d
      (subst (λ st. Trace st d.server_hello_seen d.server_flight_after (records_of p)) (sym e) h) l
downlink_in-Traced server_hello p q d e h l =
    scan_downlink-Traced p q d
      (subst (λ st. Trace st d.server_hello_seen d.server_flight_after (records_of p)) (sym e) h) l

-- The bytes of the server.
pub down_bytes : List Observation → List ℕ
down_bytes [] = []
down_bytes (up p ∷ os) = down_bytes os
down_bytes (down p ∷ os) = p ++ down_bytes os

observe_all-Traced :
    (os : List Observation) (p : List ℕ) (d : HandshakeDetector)
    → Traced p d
    → Traced (p ++ down_bytes os) (observe_all os d)
unfolding observe_all observe observe_uplink observe_downlink down_bytes
observe_all-Traced [] p d h = subst (λ x. Traced x d) (sym (append-nil p)) h
observe_all-Traced (up q ∷ os) p d h =
    observe_all-Traced os p (uplink_in d.state q d) (uplink_in-Traced d.state p q d refl h)
observe_all-Traced (down q ∷ os) p d h =
    subst (λ x. Traced x (observe_all os (downlink_in d.state q d)))
      (append_assoc p q (down_bytes os))
      (observe_all-Traced os (p ++ q) (downlink_in d.state q d)
        (downlink_in-Traced d.state p q d refl h.0 h.1))

new_handshake_detector-Traced : (m : ℕ) (t : Bool) → Traced [] (new_handshake_detector m t)
unfolding new_handshake_detector Trace Linked scanner_of feed
new_handshake_detector-Traced m t = ((refl, refl), refl)

ready_handshake :
    (p : List ℕ) (d : HandshakeDetector)
    → Traced p d
    → d.state ≡ ready
    → d.server_hello_seen ≡ true
    → HasHandshake (records_of p)
unfolding Trace
ready_handshake p d h e seen =
    subst (λ st. Trace st d.server_hello_seen d.server_flight_after (records_of p)) e h.0 seen

pub ready-HasHandshake :
    (m : ℕ) (t : Bool) (os : List Observation)
    → (observe_all os (new_handshake_detector m t)).state ≡ ready
    → (observe_all os (new_handshake_detector m t)).server_hello_seen ≡ true
    → HasHandshake (records_of (down_bytes os))
ready-HasHandshake m t os =
    ready_handshake (down_bytes os) (observe_all os (new_handshake_detector m t))
      (observe_all-Traced os [] (new_handshake_detector m t) (new_handshake_detector-Traced m t))
