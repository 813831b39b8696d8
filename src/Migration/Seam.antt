-- ===== src/Migration/Seam.antt =====
-- session/migration.go: the order of what a streamMig does.
use anytls_x.Base.{
  ℕ, ◌≡◌, refl, ap, ◌∙◌, Bool, true, false, ◌||◌, ◌&&◌, not, Option, none, some, List, [], ◌∷◌,
  ◌==◌, if_cases, on_some_cases, if◌then◌else◌,
}
use anytls_x.Frame.Defs.{cmd_migrate_ready, cmd_migrate_go, cmd_uplink_fin}
use anytls_x.Detector.Machine.{
  HandshakeDetector, observe_uplink, observe_downlink, is_aborted, is_ready,
}
use anytls_x.Migration.Registry.{Token}
use anytls_x.Migration.Defs.{
  Act, StreamMig, act, control, mux_write, carrier_write, half_close, release, note_aborted,
  server_maybe_trigger, observe_server_read, observe_server_write, mig_write, close_carrier,
  maybe_full_close_carrier, close_write_half, close_on_stream_end, end_of_stream, close_write,
  server_attach_carrier, server_on_uplink_fin,
}

abbrev pub is_some {ℓ} : {A : Type ℓ} → Option A → Bool
is_some none = false
is_some (some a) = true

-- A barrier is among the acts.
unfoldable pub crossed : List Act → Bool
crossed [] = false
crossed (control cmd _ ∷ log) =
    let rest = crossed log in if cmd == cmd_migrate_go || cmd == cmd_uplink_fin then true else rest
crossed (_ ∷ log) = crossed log

unfoldable pub half_closed : List Act → Bool
half_closed [] = false
half_closed (half_close _ ∷ log) = true
half_closed (_ ∷ log) = half_closed log

unfoldable pub released : List Act → Bool
released [] = false
released (release ∷ log) = true
released (_ ∷ log) = released log

-- Writes on the session before the barrier and on the carrier behind it; no second half-close, and no
-- second release.
unfoldable pub IsSeam : List Act → Type 0
unfolding crossed half_closed released
IsSeam [] = Unit
IsSeam (mux_write _ ∷ log) = (crossed log ≡ false) × IsSeam log
IsSeam (carrier_write _ _ ∷ log) = (crossed log ≡ true) × IsSeam log
IsSeam (half_close _ ∷ log) = (half_closed log ≡ false) × IsSeam log
IsSeam (release ∷ log) = (released log ≡ false) × IsSeam log
IsSeam (_ ∷ log) = IsSeam log

abbrev pub IsMoving : StreamMig → Type 0
unfolding IsSeam crossed half_closed released
IsMoving m =
    IsSeam m.acts
    × (crossed m.acts ≡ is_some m.write_conn)
    × (half_closed m.acts ≡ m.write_half_closed)
    × (released m.acts ≡ m.closed_once)
    × (m.carrier_ready ≡ true → is_some m.carrier ≡ true)

note_aborted-IsMoving :
    (d : HandshakeDetector) (m : StreamMig) → IsMoving m → IsMoving (note_aborted d m)
unfolding note_aborted IsSeam crossed half_closed released
note_aborted-IsMoving d m h = if_cases IsMoving (is_aborted d) _ _ (λ _. h) λ _. h

server_maybe_trigger-IsMoving :
    (b : Bool) (drawn : Option Token) (m : StreamMig)
    → IsMoving m
    → IsMoving (server_maybe_trigger b drawn m)
unfolding server_maybe_trigger IsSeam crossed half_closed released
server_maybe_trigger-IsMoving b drawn m h =
    on_some_cases IsMoving m.detector _ _ (λ _. h)
      λ d _.
        if_cases IsMoving (m.taps_done || not (is_ready d) || m.triggered) _ _ (λ _. h)
          λ _.
            on_some_cases IsMoving drawn _ _ (λ _. h)
              λ tok _.
                if_cases (λ x. IsMoving (act (control cmd_migrate_ready tok) x)) b _ _ (λ _. h)
                  λ _. h

pub observe_server_read-IsMoving :
    (b : Bool) (drawn : Option Token) (p : List ℕ) (m : StreamMig)
    → IsMoving m
    → IsMoving (observe_server_read b drawn p m)
unfolding observe_server_read
observe_server_read-IsMoving b drawn p m h =
    on_some_cases IsMoving m.detector _ _ (λ _. h)
      λ d _.
        if_cases IsMoving (m.taps_done || not m.payload_started) _ _ (λ _. h)
          λ _.
            server_maybe_trigger-IsMoving b drawn _ (note_aborted-IsMoving (observe_uplink p d) m h)

observe_server_write-IsMoving :
    (p : List ℕ) (m : StreamMig) → IsMoving m → IsMoving (observe_server_write p m)
unfolding observe_server_write
observe_server_write-IsMoving p m h =
    on_some_cases IsMoving m.detector _ _ (λ _. h)
      λ d _.
        if_cases IsMoving (m.taps_done || not m.payload_started) _ _ (λ _. h)
          λ _. note_aborted-IsMoving (observe_downlink p d) m h

note_aborted-write_conn :
    (d : HandshakeDetector) (m : StreamMig) → (note_aborted d m).write_conn ≡ m.write_conn
unfolding note_aborted
note_aborted-write_conn d m =
    if_cases (λ (x : StreamMig). x.write_conn ≡ m.write_conn) (is_aborted d) _ _ (λ _. refl)
      λ _. refl

observe_server_write-write_conn :
    (p : List ℕ) (m : StreamMig) → (observe_server_write p m).write_conn ≡ m.write_conn
unfolding observe_server_write
observe_server_write-write_conn p m =
    on_some_cases (λ (x : StreamMig). x.write_conn ≡ m.write_conn) m.detector _ _ (λ _. refl)
      λ d _.
        if_cases (λ (x : StreamMig). x.write_conn ≡ m.write_conn)
          (m.taps_done || not m.payload_started) _ _ (λ _. refl)
          λ _. note_aborted-write_conn (observe_downlink p d) m

pub mig_write-IsMoving :
    (b : Bool) (drawn : Option Token) (p : List ℕ) (m : StreamMig)
    → IsMoving m
    → IsMoving (mig_write b drawn p m)
unfolding mig_write IsSeam crossed half_closed released
mig_write-IsMoving b drawn p m h =
    on_some_cases IsMoving m.write_conn _ _
      (λ off.
        let k = observe_server_write-IsMoving p m h in
        let free = k.1 ∙ ap is_some (observe_server_write-write_conn p m ∙ off) in
        server_maybe_trigger-IsMoving b drawn (act (mux_write p) (observe_server_write p m))
          ((free, k.0), k.1, k.2, k.3, k.4))
      λ conn on. ((h.1 ∙ ap is_some on, h.0), h.1, h.2, h.3, h.4)

pub close_carrier-IsMoving : (m : StreamMig) → IsMoving m → IsMoving (close_carrier m)
unfolding close_carrier IsSeam crossed half_closed released
close_carrier-IsMoving m h =
    if_cases IsMoving m.closed_once _ _ (λ _. h)
      λ unshut.
        on_some_cases (λ x. IsMoving (act release x)) m.carrier _ _
          (λ _. ((h.3 ∙ unshut, h.0), h.1, h.2, refl, h.4))
          λ conn _. ((h.3 ∙ unshut, h.0), h.1, h.2, refl, h.4)

pub maybe_full_close_carrier-IsMoving :
    (m : StreamMig) → IsMoving m → IsMoving (maybe_full_close_carrier m)
unfolding maybe_full_close_carrier
maybe_full_close_carrier-IsMoving m h =
    if_cases IsMoving (m.write_half_closed && m.read_half_closed) _ _
      (λ _. close_carrier-IsMoving m h) λ _. h

close_write_half-IsMoving :
    (conn : ℕ) (m : StreamMig) → IsMoving m → IsMoving (close_write_half conn m)
unfolding close_write_half IsSeam crossed half_closed released
close_write_half-IsMoving conn m h =
    if_cases IsMoving m.write_half_closed _ _ (λ _. h)
      λ whole. ((h.2 ∙ whole, h.0), h.1, refl, h.3, h.4)

close_on_stream_end-IsMoving : (m : StreamMig) → IsMoving m → IsMoving (close_on_stream_end m)
unfolding close_on_stream_end IsSeam crossed half_closed released
close_on_stream_end-IsMoving m h =
    on_some_cases IsMoving m.write_conn _ _ (λ _. close_carrier-IsMoving m h)
      λ conn _.
        maybe_full_close_carrier-IsMoving (close_write_half conn m)
          (close_write_half-IsMoving conn m h)

pub end_of_stream-IsMoving : (m : StreamMig) → IsMoving m → IsMoving (end_of_stream m)
unfolding end_of_stream IsSeam crossed half_closed released
end_of_stream-IsMoving m h =
    if_cases IsMoving m.stream_died _ _ (λ _. h)
      λ _. close_on_stream_end-IsMoving (record m { stream_died = true }) h

pub close_write-IsMoving : (m : StreamMig) → IsMoving m → IsMoving (close_write m)
unfolding close_write
close_write-IsMoving m h =
    on_some_cases IsMoving m.write_conn _ _ (λ _. end_of_stream-IsMoving m h)
      λ conn _.
        if_cases IsMoving m.write_half_closed _ _ (λ _. h)
          λ _.
            maybe_full_close_carrier-IsMoving (close_write_half conn m)
              (close_write_half-IsMoving conn m h)

pub server_attach_carrier-IsMoving :
    (conn : ℕ) (m : StreamMig) → IsMoving m → IsMoving (server_attach_carrier conn m)
unfolding server_attach_carrier IsSeam crossed half_closed released
server_attach_carrier-IsMoving conn m h =
    if_cases IsMoving m.stream_died _ _ (λ _. h) λ _. (h.0, refl, h.2, h.3, λ _. refl)

pub server_on_uplink_fin-IsMoving : (m : StreamMig) → IsMoving m → IsMoving (server_on_uplink_fin m)
unfolding server_on_uplink_fin IsSeam crossed half_closed released
server_on_uplink_fin-IsMoving m h =
    if_cases IsMoving m.uplink_fin_seen _ _ (λ _. h)
      λ _. on_some_cases IsMoving m.carrier _ _ (λ _. h) λ conn _. h
