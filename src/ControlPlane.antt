-- ===== src/ControlPlane.antt =====
-- tools/control_plane.py: whether auto-merge is armed.
pub mod Types
pub mod Decide
pub mod Armed
