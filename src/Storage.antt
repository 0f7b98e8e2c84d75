-- ===== src/Storage.antt =====
-- The stores of objects and volumes, of internal/storage/object and internal/storage/volume.
pub mod Paths
pub mod Calls
pub mod Objects
pub mod Reads
pub mod Volumes
pub mod Snapshots
pub mod Presign
mod Examples
