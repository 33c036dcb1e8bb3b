-- ===== src/Models.antt =====
-- models.py: the records that the services return.
pub mod Queues
pub mod Events
pub mod Profile
pub mod Perf
pub mod Tree
