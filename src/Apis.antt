-- ===== src/Apis.antt =====
-- The REST control plane of internal/apis/v1/api.go.
pub mod Http
pub mod Resources
pub mod People
pub mod Server
pub mod Guard
pub mod Created
pub mod Issued
mod Examples
