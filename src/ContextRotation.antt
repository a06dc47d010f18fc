-- ===== src/ContextRotation.antt =====
-- tools/context_rotation.py: when a session is to be replaced by a fresh one.
pub mod Types
pub mod Decide
pub mod Rotates
