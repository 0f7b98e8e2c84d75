-- ===== src/Leader.antt =====
-- The leader election of internal/util/leader: leader.go and codec.go, over the store of Kv.
pub mod Election
pub mod Leases
pub mod Takeover
mod Examples
