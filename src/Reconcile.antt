-- ===== src/Reconcile.antt =====
-- Bringing one object of the cluster to what is wanted: pkg/util/reconcile.
pub mod Types
pub mod Kinds
pub mod Settled
pub mod Recreated
pub mod Roles
pub mod Tests
