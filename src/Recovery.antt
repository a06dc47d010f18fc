-- ===== src/Recovery.antt =====
-- tools/recovery_loop.py, the triage of a failure report.
pub mod Types
pub mod Triage
pub mod Corpus
pub mod Clean
pub mod Routed
pub mod Recorded
