-- ===== src/Server/Rounds.antt =====
-- One round of deep_inc/server/server.cc for one key: the pushes of all workers, the engine's work on
-- them, and the answers to the pulls that wait.
pub mod Enqueue
pub mod Jobs
pub mod Pushes
pub mod Pulls
pub mod Merge
pub mod Publish
pub mod Allreduce
pub mod Served
pub mod Initial
pub mod Barrier
