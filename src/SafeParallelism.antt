-- ===== src/SafeParallelism.antt =====
-- tools/safe_parallelism.py: whether two slices may run together.
pub mod Types
pub mod Decide
pub mod Safe
