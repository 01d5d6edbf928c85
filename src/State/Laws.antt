-- ===== src/State/Laws.antt =====
-- Proofs about the state store and the rebuild of states.
pub mod Registry
pub mod Counts
pub mod Settled
pub mod Calls
pub mod Delete
pub mod History
pub mod Rebuilding
pub mod Saving
pub mod RoundTrip
pub mod Reload
pub mod Lost
pub mod Outcomes
pub mod Policies
