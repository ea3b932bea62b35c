-- ===== src/TaskQueue.antt =====
-- src/task_queue: the in-memory scheduler of OFFLINE and SPK tasks.
pub mod Registry
pub mod Policy
pub mod PriorityQueue
pub mod Workers
pub mod Scheduler
