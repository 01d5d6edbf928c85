-- ===== src/Jobs/Laws.antt =====
-- Theorems about the job store of openpine/jobs/transactional_store.py.
pub mod Helpers
pub mod Written
pub mod Consistent
pub mod Guards
pub mod Effects
pub mod Evolution
pub mod Soundness
pub mod Creation
pub mod Recovery
pub mod History
