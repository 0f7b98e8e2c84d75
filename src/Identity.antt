-- ===== src/Identity.antt =====
-- The identity service of internal/identity/identity.go.
pub mod Rules
pub mod Globs
pub mod Tokens
pub mod Signed
pub mod Keys
pub mod Accounts
pub mod Logins
pub mod Fixtures
mod Examples
