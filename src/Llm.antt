-- ===== src/Llm.antt =====
-- The small language engine of internal/primitives/llm and its front-end, internal/inference.
pub mod Engine
pub mod Words
pub mod Registry
pub mod Inference
mod Examples
