-- ===== src/State.antt =====
-- openpine/state and openpine/recovery: snapshots of strategy states, and their rebuild.
pub mod Codec
pub mod Model
pub mod Index
pub mod Store
pub mod Snapshots
pub mod Rebuild
pub mod Processes
pub mod Policy
pub mod Runtime
pub mod Laws
mod Tests
mod CodecTests
