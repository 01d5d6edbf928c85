-- ===== src/Streams.antt =====
-- openpine/streams/manager.py: the live market data subscriptions.
pub mod Manager
pub mod Single
pub mod Resumed
mod Tests
