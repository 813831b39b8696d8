-- ===== src/Shaper/Shaped.antt =====
-- session/record_shaper.go: what padding does to the bytes of a write, and what the receiver makes of it.
use anytls_x.Base.{
  ℕ, zero, suc, ◌+◌, ◌-◌, ◌≡◌, refl, Option, none, some, List, [], ◌∷◌, ◌++◌, arith, length, get_or,
  leb, ◌==◌, ◌⊎◌, inl, inr, Bool-cases, if◌then◌else◌,
}
use anytls_x.Env.{Env, World}
use anytls_x.Rand.Defs.{fast_intn}
use anytls_x.Rand.Bounds.{OnlyDraws, OnlyDraws-refl, OnlyDraws-trans, fast_intn-OnlyDraws}
use anytls_x.Frame.Defs.{Frame, cmd_waste}
use anytls_x.Padding.Defs.{PadTarget, target}
use anytls_x.Shaper.Defs.{
  RecordShaper, pick_target, feasible_targets, pick_feasible, or_feasible, size_in, pad_to_picked,
  pad_control_frame, or_same,
}
use anytls_x.Shaper.Waste.{Padded, append_waste_frame-Padded, append_waste_frame-OnlyDraws}

-- The written bytes are those given, or those with one waste frame behind them.
abbrev pub Shaped : List ℕ → List ℕ → Type 0
Shaped b out = (out ≡ b) ⊎ ((n : ℕ) × Padded b out n)

-- The frames that are not waste: what the receiver acts on.
unfoldable pub visible : List Frame → List Frame
visible [] = []
visible (f ∷ fs) = let rest = visible fs in if f.cmd == cmd_waste then rest else f ∷ rest

pub visible-append : (fs gs : List Frame) → visible (fs ++ gs) ≡ visible fs ++ visible gs
unfolding visible
visible-append [] gs = refl
visible-append (f ∷ fs) gs = ground (arith, visible-append fs gs)

module _ (e : Env) where
  pad_to_picked-Shaped :
      (b : List ℕ) (m : ℕ) (picked : Option PadTarget) (w : World)
      → Shaped b (or_same b (pad_to_picked e b m picked w).0)
  unfolding pad_to_picked
  pad_to_picked-Shaped b m none w = inl refl
  pad_to_picked-Shaped b m (some t) w =
      inr (_, append_waste_frame-Padded e b (size_in e t m w).0 (size_in e t m w).1)

  pub pad_control_frame-Shaped :
      (rs : RecordShaper) (b : List ℕ) (w : World)
      → Shaped b (or_same b (pad_control_frame e rs b w).0)
  unfolding pad_control_frame
  pad_control_frame-Shaped rs b w = elim (Bool-cases (length rs.cfg.pad_targets == 0)) [
    | inl empty ↦ rw empty (inl refl)
    | inr present ↦
        let m = length b + 7 in
        let found = pick_target e 3 rs.cfg.pad_targets m w in
        let picked = or_feasible e rs.cfg.pad_targets m found.0 found.1 in
        rw present (pad_to_picked-Shaped b m picked.0 picked.1)
  ]

  pick_target-OnlyDraws :
      (k : ℕ) (ts : List PadTarget) (m : ℕ) (w : World) → OnlyDraws w (pick_target e k ts m w).1
  unfolding pick_target
  pick_target-OnlyDraws zero ts m w = OnlyDraws-refl w
  pick_target-OnlyDraws (suc k) ts m w =
      let drawn = fast_intn e (length ts) w in
      elim (Bool-cases (leb m (get_or ts drawn.0 (target 0 0)).max)) [
        | inl fits ↦ rw fits (fast_intn-OnlyDraws e (length ts) w)
        | inr misses ↦ rw misses (
            OnlyDraws-trans (fast_intn-OnlyDraws e (length ts) w)
              (pick_target-OnlyDraws k ts m drawn.1))
      ]

  pick_feasible-OnlyDraws : (ts : List PadTarget) (w : World) → OnlyDraws w (pick_feasible e ts w).1
  unfolding pick_feasible
  pick_feasible-OnlyDraws [] w = OnlyDraws-refl w
  pick_feasible-OnlyDraws (t ∷ ts) w = fast_intn-OnlyDraws e (length (t ∷ ts)) w

  or_feasible-OnlyDraws :
      (ts : List PadTarget) (m : ℕ) (found : Option PadTarget) (w : World)
      → OnlyDraws w (or_feasible e ts m found w).1
  unfolding or_feasible
  or_feasible-OnlyDraws ts m (some t) w = OnlyDraws-refl w
  or_feasible-OnlyDraws ts m none w = pick_feasible-OnlyDraws (feasible_targets 16 m ts) w

  size_in-OnlyDraws : (t : PadTarget) (m : ℕ) (w : World) → OnlyDraws w (size_in e t m w).1
  unfolding size_in
  size_in-OnlyDraws t m w =
      ground (
        arith,
        fast_intn-OnlyDraws e (t.max - m + 1) w,
        fast_intn-OnlyDraws e (t.max - t.min + 1) w,
      )

  pad_to_picked-OnlyDraws :
      (b : List ℕ) (m : ℕ) (picked : Option PadTarget) (w : World)
      → OnlyDraws w (pad_to_picked e b m picked w).1
  unfolding pad_to_picked
  pad_to_picked-OnlyDraws b m none w = OnlyDraws-refl w
  pad_to_picked-OnlyDraws b m (some t) w =
      OnlyDraws-trans (size_in-OnlyDraws t m w)
        (append_waste_frame-OnlyDraws e b (size_in e t m w).0 (size_in e t m w).1)

  pub pad_control_frame-OnlyDraws :
      (rs : RecordShaper) (b : List ℕ) (w : World) → OnlyDraws w (pad_control_frame e rs b w).1
  unfolding pad_control_frame
  pad_control_frame-OnlyDraws rs b w = elim (Bool-cases (length rs.cfg.pad_targets == 0)) [
    | inl empty ↦ rw empty (OnlyDraws-refl w)
    | inr present ↦
        let m = length b + 7 in
        let ts = rs.cfg.pad_targets in
        let found = pick_target e 3 ts m w in
        let picked = or_feasible e ts m found.0 found.1 in
        rw present (
          OnlyDraws-trans
            (OnlyDraws-trans (pick_target-OnlyDraws 3 ts m w)
              (or_feasible-OnlyDraws ts m found.0 found.1))
            (pad_to_picked-OnlyDraws b m picked.0 picked.1))
  ]
