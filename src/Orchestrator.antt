-- ===== src/Orchestrator.antt =====
-- tools/autonomous_orchestrator.py: what the next tick of the orchestrator does.
pub mod Types
pub mod Decide
pub mod Next
