-- ===== src/Shaper.antt =====
-- session/record_shaper.go: padding of the written frames to configured record sizes.
pub mod Defs
pub mod Waste
pub mod Target
pub mod Shaped
pub mod Headers
pub mod Writes
pub mod Config
pub mod Idle
