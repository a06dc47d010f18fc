-- ===== src/Legacy.antt =====
-- tools/work_queue.py, the version 1 queue: one Issue whose body holds a checklist and a JSON block.
pub mod Items
pub mod Body
pub mod Mutate
pub mod Kept
pub mod Order
pub mod Read
pub mod Runs
