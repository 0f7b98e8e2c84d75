-- ===== src/Secret.antt =====
-- Encrypted secrets of internal/secret/secrets.go, and the environments of internal/config/config.go.
pub mod Cipher
pub mod Env
mod Examples
