-- ===== src/Jobs.antt =====
-- openpine/jobs: the durable store of jobs with its lease protocol (`transactional_store.py`).
pub mod Model
pub mod Table
pub mod Tx
pub mod Store
pub mod Ops
pub mod Create
pub mod Recover
pub mod Query
pub mod History
pub mod Laws
mod Tests
mod EffectTests
