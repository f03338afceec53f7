-- ===== src/Jobs.antt =====
-- The jobs table of vector_lake/db_store.py and the functions that read and write it.
pub mod Row
pub mod Queue
pub mod Lease
pub mod Failure
pub mod Ledger
pub mod Callers
pub mod History
mod Examples
