-- ===== src/Scheduler.antt =====
-- pkg/scheduler: the scheduler's own data structures.
pub mod Types
pub mod Heap
pub mod Cache
pub mod Sort
pub mod WorkerTree
pub mod Nominator
pub mod Queue
