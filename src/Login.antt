-- ===== src/Login.antt =====
-- The login, the tokens and the MFA routes of the API: pkg/api, with apiutil.GenerateJWT.
pub mod Types
pub mod Tokens
pub mod Handlers
pub mod Sealed
pub mod Trace
pub mod Bypass
pub mod Kept
pub mod Spent
pub mod Mfa
pub mod Enrolment
pub mod Jwt
pub mod Lifetime
pub mod Tests
