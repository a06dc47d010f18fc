-- ===== src/Store.antt =====
-- tools/queue_store.py: the in-process backend, the write protocol, and export and import.
pub mod Memory
pub mod Commit
pub mod Atomic
pub mod Refines
