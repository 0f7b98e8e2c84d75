-- ===== src/Runtime.antt =====
-- The container runtime of internal/primitives/runtime and its in-memory implementation.
pub mod Fake
pub mod Sound
pub mod Keys
pub mod Steps
pub mod Leaks
mod Examples
