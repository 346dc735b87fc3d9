-- ===== src/Rbac.antt =====
-- Roles and rules: apis/rbac/v1, pkg/util/rbac and the user types of pkg/types/auth_types.go.
pub mod Rule
pub mod Types
pub mod Evaluate
pub mod Filters
pub mod Filtered
pub mod Includes
pub mod Equality
pub mod Permits
pub mod Escalation
pub mod Grantable
pub mod Tests
