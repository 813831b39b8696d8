-- ===== src/Detector/Gate.antt =====
-- session/migration_detect.go, handshakeDetector: what it asks for before it says ready.
use anytls_x.Base.{
  ℕ, ◌+◌, ◌≡◌, ◌≢◌, ap, sym, ◌∙◌, refl, true, false, List, [], ◌∷◌, arith, length, ◌==◌, if_cases,
  subst, ◌||◌,
}
use anytls_x.Detector.Machine.{
  HandshakeDetector, new_handshake_detector, first_uplink, observe_uplink, observe_downlink,
  uplink_in, downlink_in, Observation, up, down, observe, observe_all, is_ready, is_aborted,
  tls_record_handshake,
}

-- The payload bytes of the observations, one way and the other.
pub up_total : List Observation → ℕ
up_total [] = 0
up_total (up p ∷ os) = length p + up_total os
up_total (down p ∷ os) = up_total os

pub down_total : List Observation → ℕ
down_total [] = 0
down_total (up p ∷ os) = down_total os
down_total (down p ∷ os) = length p + down_total os

decided_stays :
    (d : HandshakeDetector) (o : Observation) → is_ready d || is_aborted d ≡ true → observe o d ≡ d
unfolding observe observe_uplink observe_downlink uplink_in downlink_in is_ready is_aborted
decided_stays d (up p) e = ground arith
decided_stays d (down p) e = ground arith

-- Ready and aborted are final: no sequence of observations changes a detector in either.
pub observe_all_decided :
    (os : List Observation) (d : HandshakeDetector)
    → is_ready d || is_aborted d ≡ true
    → observe_all os d ≡ d
unfolding observe_all
observe_all_decided [] d e = refl
observe_all_decided (o ∷ os) d e =
    ap (observe_all os) (decided_stays d o e) ∙ observe_all_decided os d e

given_up_first :
    (m c : ℕ) (p : List ℕ)
    → c ≢ tls_record_handshake
    → is_aborted (observe (up (c ∷ p)) (new_handshake_detector m true)) ≡ true
unfolding observe observe_uplink uplink_in first_uplink new_handshake_detector is_aborted
given_up_first m c p h =
    if_cases (λ d. is_aborted d ≡ true) (c == tls_record_handshake) _ _ (λ e. absurd (ground arith))
      (λ e. refl)

not_ready_first :
    (m c : ℕ) (p : List ℕ)
    → c ≢ tls_record_handshake
    → is_ready (observe (up (c ∷ p)) (new_handshake_detector m true)) ≡ false
unfolding observe observe_uplink uplink_in first_uplink new_handshake_detector is_ready
not_ready_first m c p h =
    if_cases (λ d. is_ready d ≡ false) (c == tls_record_handshake) _ _ (λ e. absurd (ground arith))
      (λ e. refl)

-- With the TLS-only option, a new detector whose first observation is uplink payload that does not
-- begin with the type of a handshake record is aborted and not ready, whatever it observes later.
pub observe_all_tls_only :
    (m c : ℕ) (p : List ℕ) (os : List Observation)
    → c ≢ tls_record_handshake
    → (is_aborted (observe_all (up (c ∷ p) ∷ os) (new_handshake_detector m true)) ≡ true)
      × (is_ready (observe_all (up (c ∷ p) ∷ os) (new_handshake_detector m true)) ≡ false)
unfolding observe_all
observe_all_tls_only m c p os h =
    subst (λ d. (is_aborted d ≡ true) × (is_ready d ≡ false)) (sym later)
      (given_up_first m c p h, not_ready_first m c p h)
  where
    later :
        observe_all (up (c ∷ p) ∷ os) (new_handshake_detector m true)
        ≡ observe (up (c ∷ p)) (new_handshake_detector m true)
    later =
        observe_all_decided os (observe (up (c ∷ p)) (new_handshake_detector m true))
          (ground (arith, given_up_first m c p h))
