-- ===== src/Mfa.antt =====
-- The one-time passwords of the users: pkg/auth/mfa.
pub mod Manager
pub mod Scanned
pub mod Rewritten
pub mod Found
pub mod Status
pub mod Service
pub mod Stored
pub mod Tests
