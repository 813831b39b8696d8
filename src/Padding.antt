-- ===== src/Padding.antt =====
-- padding/padding.go: padding schemes.
pub mod Defs
pub mod Parse
pub mod Parsed
pub mod Sampled
pub mod Written
