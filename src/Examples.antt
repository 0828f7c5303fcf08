-- ===== src/Examples.antt =====
-- Concrete runs, at which the theorems' hypotheses hold.
pub mod Queue
pub mod Parts
pub mod Tasks
pub mod Rounds
pub mod Codec
pub mod Loops
