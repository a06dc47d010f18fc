-- ===== src/Tests.antt =====
-- Runs of the definitions, and the theorems at concrete data.
mod Data
mod Queues
mod Reached
mod Ruled
mod Rotations
mod Denials
mod Controls
mod Wakes
mod Ticks
mod Drains
mod Legacies
mod Leases
mod Corpora
mod Effects
mod Guards
mod Recoveries
mod Failures
