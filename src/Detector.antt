-- ===== src/Detector.antt =====
-- session/migration_detect.go: when a stream may move to another connection.
pub mod Scanner
pub mod Machine
pub mod Bytes
pub mod Bodies
pub mod Rounds
pub mod Cuts
pub mod Kept
pub mod Count
pub mod Gate
pub mod Paired
pub mod Records
pub mod Traced
