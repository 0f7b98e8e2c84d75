-- ===== src/Kv.antt =====
-- The key-value store of internal/primitives/db: kv.go and raft.go.
pub mod State
pub mod Apply
pub mod Journal
pub mod Ops
pub mod Writes
pub mod Spec
pub mod Refinement
pub mod Replay
pub mod Durable
pub mod Texts
pub mod Restart
pub mod SnapshotLoss
pub mod Quorum
pub mod Races
pub mod Listing
pub mod Results
mod Examples
