-- ===== src/Lb.antt =====
-- The load balancer of internal/lb/lb.go.
pub mod Balancer
pub mod Picks
pub mod Counts
mod Examples
