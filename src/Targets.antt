-- ===== src/Targets.antt =====
-- backend/targets.py: which processes are observed, their sessions, and whose I/O is whose.
pub mod Rules
pub mod SessionIds
pub mod Sessions
pub mod Attribution
pub mod Registry
pub mod Kept
pub mod Chosen
pub mod State
