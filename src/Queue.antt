-- ===== src/Queue.antt =====
-- tools/queue_core.py: the execution-queue rules. A state comes in, a new state and its events go
-- out, and a refusal is an `Error`.
pub mod Types
pub mod Ids
pub mod Fields
pub mod Query
pub mod Validate
pub mod Edit
pub mod Transition
pub mod Move
pub mod Secrets
pub mod History
pub mod Inversion
pub mod Start
pub mod Request
pub mod Cap
pub mod Keeps
pub mod Valid
pub mod Guard
pub mod Sealable
pub mod Reach
pub mod Drain
