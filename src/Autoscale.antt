-- ===== src/Autoscale.antt =====
-- The autoscaler of internal/autoscale/autoscale.go.
pub mod Policies
pub mod Limits
mod Examples
