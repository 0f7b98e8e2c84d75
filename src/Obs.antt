-- ===== src/Obs.antt =====
-- The observability primitives of internal/primitives/obs.
pub mod Logs
pub mod Ring
pub mod Tail
pub mod Alerts
pub mod Firing
pub mod Rules
pub mod Registry
pub mod Exposition
pub mod Histogram
mod Examples
