-- ===== src/Shaper/Idle.antt =====
-- session/record_shaper.go, BuildIdleFrame: when an idle frame is due and what it is.
use anytls_x.Base.{ℕ, ◌≡◌, List, ◌∷◌, ◌++◌}
use anytls_x.Env.{Env}
use anytls_x.Frame.Stream.{decode}
use anytls_x.Shaper.Waste.{waste_frame}

-- In front of `rest`, the bytes are one waste frame to the receiver.
abbrev pub IsWaste : List ℕ → List ℕ → Type 0
IsWaste rest out = (filler : List ℕ) × (decode (out ++ rest) ≡ waste_frame filler ∷ decode rest)
