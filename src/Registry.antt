-- ===== src/Registry.antt =====
-- openpine/registry: the strategies and the circuit of the background worker.
pub mod Model
pub mod Connection
pub mod Ops
pub mod Circuits
pub mod Patch
pub mod Delete
pub mod History
pub mod Laws
mod Tests
