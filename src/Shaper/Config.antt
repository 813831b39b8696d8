-- ===== src/Shaper/Config.antt =====
-- session/record_shaper.go: the cached configuration, and why large frames skip the padding.
use anytls_x.Base.{
  ℕ, ◌≤◌, ◌≡◌, refl, sym, ap, ◌∙◌, true, none, List, [], ◌∷◌, arith, length, ltb, inl, inr, All,
  All-map, bytes_eq→eq, Bool-cases, bytes_eq, bytes_eq_refl, if◌then◌else◌,
}
use anytls_x.Env.{Env, IsRandom, World}
use anytls_x.Padding.Defs.{PadTarget, PaddingFactory}
use anytls_x.Shaper.Defs.{
  RecordShaper, compute_max_target_loop, compute_max_target, maybe_refresh_config,
  new_record_shaper, pad_control_frame,
}
use anytls_x.Shaper.Target.{pad_control_frame-none}

-- The cached maximum is the one of the cached configuration.
abbrev pub IsCached : RecordShaper → Type 0
IsCached rs = rs.max_target ≡ compute_max_target rs.cfg

pub new_record_shaper-IsCached :
    (e : Env) (pf : PaddingFactory) (w : World) → IsCached (new_record_shaper e pf w).0
unfolding new_record_shaper
new_record_shaper-IsCached e pf w = refl

-- maybeRefreshConfig, on a shaper whose cached largest target belongs to its cached configuration,
-- and whose cached configuration is that of the scheme in force where the checksums agree, leaves
-- the configuration, the checksum and the largest target of the scheme in force and LastWrite as it
-- was, and a second call changes nothing.
pub maybe_refresh_config_lem :
    (pf : PaddingFactory) (rs : RecordShaper)
    → IsCached rs
    → (bytes_eq pf.md5 rs.last_cfg_md5 ≡ true → rs.cfg ≡ pf.record_config)
    → ((maybe_refresh_config pf rs).cfg ≡ pf.record_config)
      × ((maybe_refresh_config pf rs).max_target ≡ compute_max_target pf.record_config)
      × ((maybe_refresh_config pf rs).last_cfg_md5 ≡ pf.md5)
      × ((maybe_refresh_config pf rs).last_write ≡ rs.last_write)
      × (maybe_refresh_config pf (maybe_refresh_config pf rs) ≡ maybe_refresh_config pf rs)
unfolding maybe_refresh_config
maybe_refresh_config_lem pf rs h known = elim (Bool-cases (bytes_eq pf.md5 rs.last_cfg_md5)) [
  | inl same ↦
      rw (same, same)
        (
          known same,
          h ∙ ap compute_max_target (known same),
          sym (bytes_eq→eq pf.md5 rs.last_cfg_md5 same),
          refl,
          refl,
        )
  | inr stale ↦ rw (stale, bytes_eq_refl pf.md5) (refl, refl, refl, refl, refl)
]

compute_max_target_loop-ge :
    (m : ℕ) (ts : List PadTarget)
    → (m ≤ compute_max_target_loop m ts) × All (λ t. t.max ≤ compute_max_target_loop m ts) ts
unfolding compute_max_target_loop
compute_max_target_loop-ge m [] = (omega arith, tt)
compute_max_target_loop-ge m (t ∷ ts) =
    let ih = compute_max_target_loop-ge (if ltb m t.max then t.max else m) ts in
    (ground (arith, ih.0), (ground (arith, ih.0), ih.1))

-- With a generator that stays in its range and a cached largest target that belongs to the
-- configuration, a frame that WriteControl does not try to pad, since it is at least as long as
-- that target, padControlFrame would have left as it is.
pub large_frames_skip :
    (e : Env)
    → IsRandom e
    → (rs : RecordShaper) (b : List ℕ) (w : World) → IsCached rs
    → rs.max_target ≤ length b
    → (pad_control_frame e rs b w).0 ≡ none
unfolding compute_max_target
large_frames_skip e r rs b w h le = (pad_control_frame-none e r rs b w).1 (
    All-map _ _ rs.cfg.pad_targets (λ t below. omega arith)
      (compute_max_target_loop-ge 0 rs.cfg.pad_targets).1)
