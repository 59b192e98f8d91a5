-- ===== src/WorkQueue.antt =====
-- pkg/util/workqueue: the queue that the controllers take their work from.
pub mod Queue
pub mod Limiters
