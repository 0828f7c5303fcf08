-- ===== src/Worker.antt =====
-- deep_inc/common: the worker's side. The shared state of tasks, contexts and ready tables is in
-- State; each component has a module of its own.
pub mod State
pub mod ReadyTable
pub mod ScheduledQueue
pub mod Partition
pub mod Stages
pub mod KeyEncoder
pub mod Trace
pub mod Tasks
pub mod Init
pub mod Declare
pub mod Nccl
pub mod Loops
