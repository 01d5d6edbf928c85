-- ===== src/Scheduler/Laws.antt =====
-- Theorems about the queue of `JobScheduler` (openpine/jobs/scheduler.py).
pub mod Order
pub mod Sorted
pub mod Queue
