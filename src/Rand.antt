-- ===== src/Rand.antt =====
-- util/rand.go: FastIntn and FillRandom over the generator of the environment.
pub mod Defs
pub mod Bounds
pub mod Drawn
