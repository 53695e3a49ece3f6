-- ===== src/Tests.antt =====
-- The theorems at concrete inputs.
pub mod Commands
pub mod Health
pub mod Words
pub mod Records
pub mod Logs
pub mod Schedules
pub mod Pipelines
pub mod Services
pub mod Devices
pub mod Hosts
pub mod Bindings
