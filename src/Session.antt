-- ===== src/Session.antt =====
-- session/session.go: one multiplexed connection.
pub mod Defs
pub mod Write
pub mod Line
pub mod Control
pub mod Carry
pub mod Carried
pub mod Chunks
pub mod Split
pub mod Settings
pub mod Recv
pub mod Greet
pub mod Loop
pub mod Alive
pub mod Open
pub mod Ended
pub mod Greeted
pub mod Return
pub mod Delivery
pub mod Closed
pub mod Opening
pub mod Opened
pub mod Heard
pub mod Streams
pub mod Timers
pub mod Spared
pub mod Start
pub mod Started
pub mod Outcome
pub mod Idling
