-- ===== src/Api/Grants.antt =====
-- The grants that the routes of the API require.
pub mod Types
pub mod Table
