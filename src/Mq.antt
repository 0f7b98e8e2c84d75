-- ===== src/Mq.antt =====
-- The message broker of internal/primitives/mq/mq.go.
pub mod Number
pub mod Broker
pub mod RoundTrip
pub mod Budget
pub mod Drain
pub mod Counters
pub mod Retries
mod Examples
