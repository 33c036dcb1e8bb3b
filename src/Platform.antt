-- ===== src/Platform.antt =====
-- platform/: the shared cache (cache.py) and the access to the collector's output (ebpf/).
pub mod Cache
pub mod LogFile
