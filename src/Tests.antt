-- ===== src/Tests.antt =====
-- Concrete runs of the theorems, on one environment and a few small states.
mod Data
mod Wire
mod Records
mod Sessions
mod Detection
mod Schemes
mod Pools
mod Moves
