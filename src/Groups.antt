-- ===== src/Groups.antt =====
-- The roles of users from groups of a directory: pkg/auth/providers/ldap and oidc.
pub mod Mapping
pub mod Login
pub mod Webmesh
pub mod Tests
