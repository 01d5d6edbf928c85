-- ===== src/Scheduler.antt =====
-- openpine/jobs/scheduler.py: the in-memory scheduler of jobs, with its table of locks.
pub mod Model
pub mod Ops
pub mod Locks
pub mod Laws
mod Tests
