-- ===== src/Registry/Laws.antt =====
-- Proofs about the registry of strategies (openpine/registry/strategies.py).
pub mod Rows
pub mod Safe
pub mod Changes
pub mod Held
pub mod History
pub mod Tripped
pub mod Failed
pub mod Swept
pub mod Cascade
pub mod Deletion
pub mod Mirror
pub mod Mirrored
