-- ===== src/Shaper/Headers.antt =====
-- session/record_shaper.go, padToHeadersTarget: the size of the first flush, and of a lone SYN.
use anytls_x.Base.{
  ℕ, ◌+◌, ◌-◌, ◌≤◌, ◌<◌, ◌≡◌, refl, none, some, List, arith, length, ◌⊎◌, inl, inr, Bool-cases,
}
use anytls_x.Env.{Env, IsRandom, World}
use anytls_x.Rand.Bounds.{
  OnlyDraws, OnlyDraws-refl, OnlyDraws-trans, fast_intn-OnlyDraws, fast_intn-lt,
}
use anytls_x.Shaper.Defs.{
  RecordShaper, pick_size, headers_lo, headers_out_of_reach, pad_to_range, pad_to_headers_target,
  or_same, append_waste_frame,
}
use anytls_x.Shaper.Waste.{
  append_waste_frame-Padded, append_waste_frame-OnlyDraws, length-append_waste_frame,
}
use anytls_x.Shaper.Shaped.{Shaped}

module _ (e : Env) where
  pad_to_range-Shaped :
      (b : List ℕ) (lo hi : ℕ) (w : World) → Shaped b (or_same b (pad_to_range e b lo hi w).0)
  unfolding pad_to_range
  pad_to_range-Shaped b lo hi w =
      inr (_, append_waste_frame-Padded e b (pick_size e lo hi w).0 (pick_size e lo hi w).1)

  pick_size-OnlyDraws : (lo hi : ℕ) (w : World) → OnlyDraws w (pick_size e lo hi w).1
  unfolding pick_size
  pick_size-OnlyDraws lo hi w = ground (arith, fast_intn-OnlyDraws e (hi - lo + 1) w)

  pick_size_bounds :
      IsRandom e
      → (lo hi : ℕ) (w : World) → lo ≤ hi
      → (lo ≤ (pick_size e lo hi w).0) × ((pick_size e lo hi w).0 ≤ hi)
  unfolding pick_size
  pick_size_bounds r lo hi w h = ground (arith, fast_intn-lt e r (hi - lo + 1) w)

  pad_to_range-OnlyDraws :
      (b : List ℕ) (lo hi : ℕ) (w : World) → OnlyDraws w (pad_to_range e b lo hi w).1
  unfolding pad_to_range
  pad_to_range-OnlyDraws b lo hi w =
      OnlyDraws-trans (pick_size-OnlyDraws lo hi w)
        (append_waste_frame-OnlyDraws e b (pick_size e lo hi w).0 (pick_size e lo hi w).1)

  pad_to_range_size :
      IsRandom e
      → (b : List ℕ) (lo hi : ℕ) (w : World) → length b + 7 ≤ lo
      → lo ≤ hi
      → hi ≤ 0xFFFF
      → (out : List ℕ) × ((pad_to_range e b lo hi w).0 ≡ some out)
        × (lo ≤ length out)
        × (length out ≤ hi)
  unfolding pad_to_range
  pad_to_range_size r b lo hi w h k fits =
      let size = (pick_size e lo hi w).0 in
      let next = (pick_size e lo hi w).1 in
      let bounds = pick_size_bounds r lo hi w k in
      let hit = length-append_waste_frame e b size next (omega arith) (omega arith) in
      ((append_waste_frame e b size next).0, refl, rw hit bounds.0, rw hit bounds.1)

  pub pad_to_headers_target-Shaped :
      (rs : RecordShaper) (b : List ℕ) (w : World)
      → Shaped b (or_same b (pad_to_headers_target e rs b w).0)
  unfolding pad_to_headers_target
  pad_to_headers_target-Shaped rs b w =
      let t = rs.cfg.headers_target in
      let m = length b + 7 in
      elim (Bool-cases (headers_out_of_reach t m)) [
        | inl out ↦ rw out (inl refl)
        | inr within ↦ rw within (pad_to_range-Shaped b (headers_lo t m) t.max w)
      ]

  pub pad_to_headers_target-OnlyDraws :
      (rs : RecordShaper) (b : List ℕ) (w : World) → OnlyDraws w (pad_to_headers_target e rs b w).1
  unfolding pad_to_headers_target
  pad_to_headers_target-OnlyDraws rs b w =
      let t = rs.cfg.headers_target in
      let m = length b + 7 in
      elim (Bool-cases (headers_out_of_reach t m)) [
        | inl out ↦ rw out (OnlyDraws-refl w)
        | inr within ↦ rw within (pad_to_range-OnlyDraws b (headers_lo t m) t.max w)
      ]

  -- With a generator that stays in its range and bounds in order of at most 0xFFFF,
  -- padToHeadersTarget leaves a flush as it is when the upper bound is too small for it and a waste
  -- header, and otherwise pads it to a length within the bounds.
  pub pad_to_headers_target_size :
      IsRandom e
      → (rs : RecordShaper) (b : List ℕ) (w : World)
      → rs.cfg.headers_target.min ≤ rs.cfg.headers_target.max
      → rs.cfg.headers_target.max ≤ 0xFFFF
      → ((rs.cfg.headers_target.max < length b + 7) × ((pad_to_headers_target e rs b w).0 ≡ none))
        ⊎ ((out : List ℕ) × ((pad_to_headers_target e rs b w).0 ≡ some out)
            × (length b + 7 ≤ length out)
            × (rs.cfg.headers_target.min ≤ length out)
            × (length out ≤ rs.cfg.headers_target.max))
  unfolding pad_to_headers_target
  pad_to_headers_target_size r rs b w h k =
      let t = rs.cfg.headers_target in
      let m = length b + 7 in
      elim (Bool-cases (headers_out_of_reach t m)) [
        | inl out ↦ inl (ground (arith, out), rw out refl)
        | inr within ↦
            let lo_ge : (m ≤ headers_lo t m) × (t.min ≤ headers_lo t m) × (headers_lo t m ≤ t.max) =
              ground (arith, within) in
            let (sized, e1, e2, e3) =
              pad_to_range_size r b (headers_lo t m) t.max w lo_ge.0 lo_ge.2 k in
            inr (sized, rw within e1, omega arith, omega arith, e3)
      ]
