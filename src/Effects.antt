-- ===== src/Effects.antt =====
-- tools/idempotent_effects.py, which attempts at an external effect may run.
pub mod Types
pub mod Decide
pub mod Corpus
pub mod Executed
pub mod Reported
