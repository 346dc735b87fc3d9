-- ===== src/Local.antt =====
-- The local authentication provider: pkg/auth/providers/local.
pub mod User
pub mod Passwd
pub mod Encoding
pub mod Refinement
pub mod Changes
pub mod Provider
pub mod Service
pub mod Injection
pub mod Setup
pub mod Tests
