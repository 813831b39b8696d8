-- ===== src/Migration.antt =====
-- session/migration.go: the move of a stream to a connection of its own, the carrier.
pub mod Registry
pub mod Defs
pub mod Accept
pub mod Seam
pub mod Moves
pub mod Taken
