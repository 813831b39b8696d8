-- ===== src/Pool.antt =====
-- session/client.go: the client's pool of sessions.
pub mod Idle
pub mod Defs
pub mod Hooks
pub mod Calls
pub mod Cleanup
pub mod Least
pub mod Taken
pub mod Swept
pub mod Counted
pub mod Rolled
pub mod Dead
pub mod Opening
pub mod Closing
pub mod Nodes
pub mod Rounds
pub mod Ran
pub mod Entries
