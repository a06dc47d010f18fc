-- ===== src/ReplayWake.antt =====
-- tools/replay_wake.py: what a session may do when it wakes.
pub mod Types
pub mod Decide
pub mod Resumes
