-- ===== src/Scheduler.antt =====
-- The scheduler of internal/scheduler/scheduler.go.
pub mod Types
pub mod Match
pub mod Place
pub mod Eligible
pub mod Bounds
pub mod Rounds
pub mod Limits
pub mod Plans
mod Examples
