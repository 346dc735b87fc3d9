-- ===== src/Api.antt =====
-- The API server's request checks: pkg/api and the request types of pkg/types.
pub mod Request
pub mod Validation
pub mod Cluster
pub mod Grants
pub mod Privilege
pub mod Permission
pub mod Served
pub mod Audit
pub mod Elevation
pub mod SessionLaws
pub mod OwnUser
pub mod Routes
pub mod Built
pub mod Decoded
pub mod Session
pub mod Tests
