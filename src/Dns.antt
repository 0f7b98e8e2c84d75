-- ===== src/Dns.antt =====
-- The DNS server of internal/dns/dns.go.
pub mod Names
pub mod RoundTrip
pub mod Query
pub mod Malformed
pub mod Answers
pub mod Zone
mod Examples
