-- ===== src/Tests/Records.antt =====
-- The record shaper, at concrete frames.
use anytls_x.Base.{
  ℕ, ◌+◌, ◌≤◌, ◌<◌, ◌≡◌, ◌⊎◌, ◌↔◌, refl, none, some, List, [], ◌∷◌, ◌++◌, arith, All, Any, length,
}
use anytls_x.Rand.Defs.{fast_intn, fill_random}
use anytls_x.Frame.Defs.{encode}
use anytls_x.Padding.Defs.{default_record_shaper_config}
use anytls_x.Shaper.Defs.{
  RecordShaper, pad_control_frame, pad_to_headers_target, write_control, write_initial_flush,
  maybe_refresh_config, compute_max_target,
}
use anytls_x.Shaper.Target.{pad_control_frame_size, pad_control_frame-none}
use anytls_x.Shaper.Headers.{pad_to_headers_target_size}
use anytls_x.Shaper.Writes.{Controlled, write_control-Controlled, write_initial_flush-Controlled}
use anytls_x.Shaper.Config.{IsCached, large_frames_skip, maybe_refresh_config_lem}
use anytls_x.Tests.Data.{calm, calm-IsRandom, start, scheme, shaper}

-- A SYN frame of seven bytes.
abbrev syn : List ℕ
syn = 1 ∷ 0 ∷ 0 ∷ 0 ∷ 1 ∷ 0 ∷ 0 ∷ []

-- What the pad of it is.
abbrev padded_syn : List ℕ
padded_syn = syn ++ (0 ∷ 0 ∷ 0 ∷ 0 ∷ 0 ∷ 0 ∷ 0 ∷ [])

pad_control_frame_size_example :
    Any (λ t. (t.min ≤ length padded_syn) × (length padded_syn ≤ t.max)) shaper.cfg.pad_targets
    × (length syn + 7 ≤ length padded_syn)
unfolding pad_control_frame fast_intn encode fill_random
pad_control_frame_size_example =
    pad_control_frame_size calm calm-IsRandom shaper syn start padded_syn
      (
        omega arith,
        (
          omega arith,
          (omega arith, (omega arith, (omega arith, (omega arith, (omega arith, tt))))),
        ),
      )
      refl

pad_control_frame-none_example :
    ((pad_control_frame calm shaper syn start).0 ≡ none)
    ↔ All (λ t. t.max < length syn + 7) shaper.cfg.pad_targets
pad_control_frame-none_example = pad_control_frame-none calm calm-IsRandom shaper syn start

pad_to_headers_target_size_example :
    ((shaper.cfg.headers_target.max < length syn + 7)
      × ((pad_to_headers_target calm shaper syn start).0 ≡ none))
    ⊎ ((out : List ℕ) × ((pad_to_headers_target calm shaper syn start).0 ≡ some out)
        × (length syn + 7 ≤ length out)
        × (shaper.cfg.headers_target.min ≤ length out)
        × (length out ≤ shaper.cfg.headers_target.max))
pad_to_headers_target_size_example =
    pad_to_headers_target_size calm calm-IsRandom shaper syn start (omega arith) (omega arith)

write_control-Controlled_example :
    Controlled calm
      (maybe_refresh_config scheme shaper)
      syn
      start
      (write_control calm scheme shaper syn start)
write_control-Controlled_example = write_control-Controlled calm scheme shaper syn start

write_initial_flush-Controlled_example :
    Controlled calm
      (maybe_refresh_config scheme shaper)
      syn
      start
      (write_initial_flush calm scheme shaper syn start)
write_initial_flush-Controlled_example = write_initial_flush-Controlled calm scheme shaper syn start

shaper-IsCached : IsCached shaper
unfolding compute_max_target
shaper-IsCached = refl

maybe_refresh_config_lem_example :
    ((maybe_refresh_config scheme shaper).cfg ≡ scheme.record_config)
    × ((maybe_refresh_config scheme shaper).max_target ≡ compute_max_target scheme.record_config)
    × ((maybe_refresh_config scheme shaper).last_cfg_md5 ≡ scheme.md5)
    × ((maybe_refresh_config scheme shaper).last_write ≡ shaper.last_write)
    × (maybe_refresh_config scheme (maybe_refresh_config scheme shaper)
        ≡ maybe_refresh_config scheme shaper)
maybe_refresh_config_lem_example =
    maybe_refresh_config_lem scheme shaper shaper-IsCached λ same. refl

abbrev long_frame : List ℕ
long_frame = syn ++ (syn ++ (syn ++ (syn ++ (syn ++ (syn ++ syn)))))

large_frames_skip_example : (pad_control_frame calm shaper long_frame start).0 ≡ none
large_frames_skip_example =
    large_frames_skip calm calm-IsRandom shaper long_frame start shaper-IsCached (omega arith)

-- A scheme with one idle size, after 50 ms of silence.
abbrev idling : RecordShaper
idling = record shaper {
  cfg = record default_record_shaper_config {
    idle_sizes = 20 ∷ [];
    idle_interval_lo = 10;
    idle_interval_hi = 20;
    idle_threshold_ms = 50;
  };
}

abbrev idle_frame : List ℕ
idle_frame = 0 ∷ 0 ∷ 0 ∷ 0 ∷ 0 ∷ 0 ∷ 13 ∷ 8 ∷ 7 ∷ 6 ∷ 5 ∷ 4 ∷ 3 ∷ 2 ∷ 1 ∷ 8 ∷ 7 ∷ 6 ∷ 5 ∷ 4 ∷ []
