-- ===== src/Tests.antt =====
-- Runs of the definitions on concrete inputs, and the theorems at them.
pub mod Data
pub mod Rings
pub mod Payloads
pub mod Devices
pub mod Caching
pub mod Logs
pub mod EventLines
pub mod Numbers
pub mod Profiles
pub mod Profilers
pub mod Loads
pub mod Processes
pub mod Trees
