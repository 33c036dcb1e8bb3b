-- ===== src/Events.antt =====
-- The event service: the collector's event lines, their readers, and what is made of them.
pub mod Pattern
pub mod Errors
pub mod Timeouts
pub mod Reader
pub mod Ring
pub mod Printed
pub mod Lines
pub mod Stats
pub mod Service
