-- ===== src/Tests/Detection.antt =====
-- The detector, at concrete observations.
use anytls_x.Base.{ℕ, zero, suc, ◌+◌, ◌≡◌, refl, true, false, List, [], ◌∷◌, ◌++◌, arith, inl, inr}
use anytls_x.Detector.Scanner.{fresh_scanner, feed}
use anytls_x.Detector.Machine.{
  HandshakeDetector, aborted, new_handshake_detector, Observation, up, down, observe_all, is_ready,
  is_aborted,
}
use anytls_x.Detector.Bytes.{IsScanning}
use anytls_x.Detector.Cuts.{feed-append}
use anytls_x.Detector.Gate.{observe_all_decided, observe_all_tls_only}

-- The callback counts the records and their lengths.
abbrev count : ℕ → ℕ → ℕ → ℕ × ℕ → ℕ × ℕ
count rec_type len first s = (s.0 + 1, s.1 + len)

feed-append_example :
    let r = feed count (22 ∷ 3 ∷ 3 ∷ []) fresh_scanner (0, 0) in
    IsScanning r.0
    × (feed count ((22 ∷ 3 ∷ 3 ∷ []) ++ (0 ∷ 2 ∷ 1 ∷ 9 ∷ [])) fresh_scanner (0, 0)
        ≡ feed count (0 ∷ 2 ∷ 1 ∷ 9 ∷ []) r.0 r.1)
feed-append_example =
    feed-append count (22 ∷ 3 ∷ 3 ∷ []) (0 ∷ 2 ∷ 1 ∷ 9 ∷ []) fresh_scanner (0, 0)
      (inr (inl (omega arith)))

-- `n` bytes of a stream that is not TLS.
abbrev noise : ℕ → List ℕ
noise zero = []
noise (suc n) = 1 ∷ noise n

abbrev seen : List Observation
seen = up (noise 1500) ∷ down (noise 1500) ∷ []

abbrev given_up : HandshakeDetector
given_up = let d = new_handshake_detector 0 true in record d { state = aborted }

observe_all_decided_example : observe_all (up (22 ∷ []) ∷ down (22 ∷ []) ∷ []) given_up ≡ given_up
unfolding is_ready is_aborted
observe_all_decided_example = observe_all_decided (up (22 ∷ []) ∷ down (22 ∷ []) ∷ []) given_up refl

observe_all_tls_only_example :
    (is_aborted (observe_all (up (1 ∷ []) ∷ down (22 ∷ []) ∷ []) (new_handshake_detector 0 true))
      ≡ true)
    × (is_ready (observe_all (up (1 ∷ []) ∷ down (22 ∷ []) ∷ []) (new_handshake_detector 0 true))
        ≡ false)
observe_all_tls_only_example =
    observe_all_tls_only 0 1 [] (down (22 ∷ []) ∷ []) (λ e. absurd (omega (arith, e)))
