-- ===== src/Frame.antt =====
-- session/frame.go: commands, frame layout and the frame header.
pub mod Defs
pub mod Wire
pub mod Stream
