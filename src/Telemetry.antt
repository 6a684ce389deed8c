-- ===== src/Telemetry.antt =====
-- src/telemetry.rs: the samples of the state of the host, how often they are taken, and how they are kept.
pub mod Counters
pub mod HostFiles
pub mod Snapshot
pub mod Readings
pub mod Service
pub mod Collector
pub mod Settings
pub mod Preferences
pub mod Requests
pub mod Retention
pub mod Published
pub mod Reachable
pub mod Settling
mod Tests
