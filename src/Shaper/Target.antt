-- ===== src/Shaper/Target.antt =====
-- session/record_shaper.go, padControlFrame and padToHeadersTarget: the sizes that they hit.
use anytls_x.Base.{
  ℕ, zero, suc, ◌↔◌, ap, ◌∙◌, Any-elim, length-eq-zero, ◌+◌, ◌-◌, ◌≤◌, ◌<◌, ◌≡◌, refl, Option, none,
  some, List, [], ◌∷◌, arith, length, get_or, ltb, leb, ◌==◌, ◌⊎◌, inl, inr, All, Any, Any-get_or,
  All-Any, Any-map, Bool-cases, ◌&&◌, Option-cases,
}
use anytls_x.Env.{Env, IsRandom, World}
use anytls_x.Shaper.Waste.{length-append_waste_frame}
use anytls_x.Rand.Defs.{fast_intn}
use anytls_x.Rand.Bounds.{fast_intn-lt}
use anytls_x.Padding.Defs.{PadTarget, target}
use anytls_x.Shaper.Defs.{
  RecordShaper, pick_target, feasible_targets, pick_feasible, or_feasible, size_in, pad_to_picked,
  pad_control_frame, append_waste_frame,
}

-- The target is one of the list, and large enough.
abbrev pub IsPick : List PadTarget → ℕ → PadTarget → Type 0
IsPick ts m t = Any (λ u. u ≡ t) ts × (m ≤ t.max)

module _ (e : Env) (r : IsRandom e) where
  pick_target-IsPick :
      (k : ℕ) (ts : List PadTarget) (m : ℕ) (w : World) (t : PadTarget)
      → 0 < length ts
      → (pick_target e k ts m w).0 ≡ some t
      → IsPick ts m t
  unfolding pick_target
  pick_target-IsPick zero ts m w t h p = cc
  pick_target-IsPick (suc k) ts m w t h p =
      elim (Bool-cases (leb m (get_or ts (fast_intn e (length ts) w).0 (target 0 0)).max)) [
        | inl fits ↦
            let same : get_or ts (fast_intn e (length ts) w).0 (target 0 0) ≡ t =
              ground (arith, fits) in
            (
              Any-get_or (λ u. u ≡ t) ts (fast_intn e (length ts) w).0 (target 0 0)
                  (fast_intn-lt e r (length ts) w h) same,
              ground (arith, fits, same),
            )
        | inr misses ↦ pick_target-IsPick k ts m (fast_intn e (length ts) w).1 t h (rw misses at p)
      ]

  feasible_targets-IsPick :
      (room m : ℕ) (ts : List PadTarget) (t : PadTarget)
      → Any (λ u. u ≡ t) (feasible_targets room m ts)
      → IsPick ts m t
  unfolding feasible_targets
  feasible_targets-IsPick room m [] t a = elim a [ ]
  feasible_targets-IsPick room m (x ∷ ts) t a = elim (Bool-cases (leb m x.max && ltb 0 room)) [
    | inl fits ↦
        let b : (x ≡ t) ⊎ Any (λ u. u ≡ t) (feasible_targets (room - 1) m ts) = rw fits at a in
        elim b [
          | inl same ↦ (inl same, ground (arith, fits))
          | inr later ↦ let ih = feasible_targets-IsPick (room - 1) m ts t later in (inr ih.0, ih.1)
        ]
    | inr misses ↦ let ih = feasible_targets-IsPick room m ts t (rw misses at a) in (inr ih.0, ih.1)
  ]

  -- With room left, the fallback's array is empty only if every target is too small.
  feasible_targets-nil :
      (room m : ℕ) (ts : List PadTarget)
      → feasible_targets (suc room) m ts ≡ []
      → All (λ t. t.max < m) ts
  unfolding feasible_targets
  feasible_targets-nil room m [] h = tt
  feasible_targets-nil room m (x ∷ ts) h = elim (Bool-cases (leb m x.max)) [
    | inl fits ↦ ground (arith, fits)
    | inr misses ↦ (ground (arith, misses), feasible_targets-nil room m ts (ground (arith, misses)))
  ]

  pick_feasible-Any :
      (ts : List PadTarget) (w : World) (t : PadTarget)
      → (pick_feasible e ts w).0 ≡ some t
      → Any (λ u. u ≡ t) ts
  unfolding pick_feasible
  pick_feasible-Any [] w t h = cc
  pick_feasible-Any (x ∷ ts) w t h =
      Any-get_or (λ u. u ≡ t) (x ∷ ts) (fast_intn e (length (x ∷ ts)) w).0 (target 0 0)
        (fast_intn-lt e r (length (x ∷ ts)) w (omega arith)) (ground arith)

  or_feasible-IsPick :
      (ts : List PadTarget) (m : ℕ) (found : Option PadTarget) (w : World) (t : PadTarget)
      → ((u : PadTarget) → found ≡ some u → IsPick ts m u)
      → (or_feasible e ts m found w).0 ≡ some t
      → IsPick ts m t
  unfolding or_feasible
  or_feasible-IsPick ts m (some u) w t f h = f t h
  or_feasible-IsPick ts m none w t f h =
      feasible_targets-IsPick 16 m ts t (pick_feasible-Any (feasible_targets 16 m ts) w t h)

  size_in_bounds :
      (t : PadTarget) (m : ℕ) (w : World)
      → m ≤ t.max
      → t.min ≤ t.max
      → (t.min ≤ (size_in e t m w).0) × (m ≤ (size_in e t m w).0) × ((size_in e t m w).0 ≤ t.max)
  unfolding size_in
  size_in_bounds t m w h k =
      ground (arith, fast_intn-lt e r (t.max - m + 1) w, fast_intn-lt e r (t.max - t.min + 1) w)

  pad_to_picked-some :
      (b : List ℕ) (m : ℕ) (picked : Option PadTarget) (w : World) (out : List ℕ)
      → (pad_to_picked e b m picked w).0 ≡ some out
      → (t : PadTarget) × (picked ≡ some t)
        × (out ≡ (append_waste_frame e b (size_in e t m w).0 (size_in e t m w).1).0)
  unfolding pad_to_picked
  pad_to_picked-some b m none w out h = cc
  pad_to_picked-some b m (some t) w out h = (t, refl, ground arith)

  pad_to_picked-none :
      (b : List ℕ) (m : ℕ) (picked : Option PadTarget) (w : World)
      → (pad_to_picked e b m picked w).0 ≡ none
      → picked ≡ none
  unfolding pad_to_picked
  pad_to_picked-none b m none w h = refl
  pad_to_picked-none b m (some t) w h = cc

  pick_feasible-none : (ts : List PadTarget) (w : World) → (pick_feasible e ts w).0 ≡ none → ts ≡ []
  unfolding pick_feasible
  pick_feasible-none [] w h = refl
  pick_feasible-none (x ∷ ts) w h = cc

  or_feasible-none :
      (ts : List PadTarget) (m : ℕ) (found : Option PadTarget) (w : World)
      → (or_feasible e ts m found w).0 ≡ none
      → feasible_targets 16 m ts ≡ []
  unfolding or_feasible
  or_feasible-none ts m (some u) w h = cc
  or_feasible-none ts m none w h = pick_feasible-none (feasible_targets 16 m ts) w h

  -- What a padded control frame is made from.
  record ControlPad (rs : RecordShaper) (b out : List ℕ) : Type 0 where
    chosen : PadTarget
    at : World
    chosen_pick : IsPick rs.cfg.pad_targets (length b + 7) chosen
    appended :
        out
        ≡ (append_waste_frame e b
            (size_in e chosen (length b + 7) at).0
            (size_in e chosen (length b + 7) at).1).0

  pad_control_frame-ControlPad :
      (rs : RecordShaper) (b : List ℕ) (w : World) (out : List ℕ)
      → (pad_control_frame e rs b w).0 ≡ some out
      → ControlPad rs b out
  unfolding pad_control_frame
  pad_control_frame-ControlPad rs b w out h = elim (Bool-cases (length rs.cfg.pad_targets == 0)) [
    | inl empty ↦ ground (arith, empty)
    | inr present ↦
        let m = length b + 7 in
        let ts = rs.cfg.pad_targets in
        let found = pick_target e 3 ts m w in
        let picked = or_feasible e ts m found.0 found.1 in
        let (t, e1, e2) = pad_to_picked-some b m picked.0 picked.1 out (rw present at h) in
        record {
          chosen = t;
          at = picked.1;
          chosen_pick =
              or_feasible-IsPick ts m found.0 found.1 t
                (λ u q. pick_target-IsPick 3 ts m w u (ground (arith, present)) q) e1;
          appended = e2;
        }
  ]

  -- With a generator that stays in its range, targets whose bounds are in order and at most 0xFFFF,
  -- a control frame that padControlFrame pads gets a length within one of the targets, and at least
  -- seven bytes above its own.
  pub pad_control_frame_size :
      (rs : RecordShaper) (b : List ℕ) (w : World) (out : List ℕ)
      → All (λ t. (t.min ≤ t.max) × (t.max ≤ 0xFFFF)) rs.cfg.pad_targets
      → (pad_control_frame e rs b w).0 ≡ some out
      → Any (λ t. (t.min ≤ length out) × (length out ≤ t.max)) rs.cfg.pad_targets
        × (length b + 7 ≤ length out)
  pad_control_frame_size rs b w out v h =
      let m = length b + 7 in
      let p = pad_control_frame-ControlPad rs b w out h in
      let t = p.chosen in
      let facts =
        Any-elim {C = (t.min ≤ t.max) × (t.max ≤ 0xFFFF)} _ rs.cfg.pad_targets
          (λ x h. (rw (← h.1) (h.0.0), rw (← h.1) (h.0.1)))
          (All-Any (λ x. (x.min ≤ x.max) × (x.max ≤ 0xFFFF)) (λ x. x ≡ t) rs.cfg.pad_targets v
            p.chosen_pick.0) in
      let size = (size_in e t m p.at).0 in
      let bounds = size_in_bounds t m p.at p.chosen_pick.1 facts.0 in
      let whole : length out ≡ size =
        ap length p.appended
        ∙ length-append_waste_frame e b size (size_in e t m p.at).1 bounds.1 (omega arith) in
      (
        Any-map (λ x. x ≡ t) _ rs.cfg.pad_targets (λ x same. rw (same, whole) (bounds.0, bounds.2))
            p.chosen_pick.0,
        rw whole bounds.1,
      )

  -- With a generator that stays in its range, padControlFrame leaves a frame as it is exactly when
  -- every configured target is too small for the frame and a waste header.
  pub pad_control_frame-none :
      (rs : RecordShaper) (b : List ℕ) (w : World)
      → ((pad_control_frame e rs b w).0 ≡ none) ↔ All (λ t. t.max < length b + 7) rs.cfg.pad_targets
  pad_control_frame-none rs b w = (
    λ h. elim (Bool-cases (length rs.cfg.pad_targets == 0)) [
      | inl empty ↦ rw (length-eq-zero rs.cfg.pad_targets (ground (arith, empty))) tt
      | inr present ↦
          let m = length b + 7 in
          let ts = rs.cfg.pad_targets in
          let found = pick_target e 3 ts m w in
          let picked = or_feasible e ts m found.0 found.1 in
          feasible_targets-nil 15 m ts (
            or_feasible-none ts m found.0 found.1 (
              pad_to_picked-none b m picked.0 picked.1
                (unfold pad_control_frame in (rw present at h))))
    ],
    λ small. elim (Option-cases (pad_control_frame e rs b w).0) [
      | inl nothing ↦ nothing
      | inr (out, h) ↦
          let p = pad_control_frame-ControlPad rs b w out h in
          let t = p.chosen in
          absurd (
            Any-elim _ rs.cfg.pad_targets
              (λ x h.
                let too_small : t.max < length b + 7 = rw (← h.1) (h.0) in
                omega (arith, p.chosen_pick.1))
              (All-Any (λ x. x.max < length b + 7) (λ x. x ≡ t) rs.cfg.pad_targets small
                p.chosen_pick.0))
    ],
  )
