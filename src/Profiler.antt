-- ===== src/Profiler.antt =====
-- The profiler: backend/proc_stats.py and services/profiler/service.py.
pub mod Lines
pub mod Collected
pub mod Entries
pub mod Service
