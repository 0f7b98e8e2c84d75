-- ===== src/Retry.antt =====
-- The retries of internal/util/retry/retry.go.
pub mod Backoff
pub mod Attempts
mod Examples
