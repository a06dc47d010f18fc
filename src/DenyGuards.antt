-- ===== src/DenyGuards.antt =====
-- tools/deny_guards.py: the chain of guard layers, in which a denial stands.
pub mod Types
pub mod Decide
pub mod Layers
pub mod Allowed
