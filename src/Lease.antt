-- ===== src/Lease.antt =====
-- tools/writer_lease.py, the one-writer lease.
pub mod Types
pub mod Messages
pub mod Decide
pub mod Corpus
pub mod Granted
pub mod Reported
