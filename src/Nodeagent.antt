-- ===== src/Nodeagent.antt =====
-- The agent of a node, of internal/nodeagent/agent.go.
pub mod Agent
pub mod Drain
pub mod Converge
mod Examples
