-- ===== src/Data.antt =====
-- openpine/data: fetching historical bars in parallel chunks (`parallel_fetcher.py`).
pub mod Fetch
mod Tests
