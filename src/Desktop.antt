-- ===== src/Desktop.antt =====
-- The volumes of a user's desktops: pkg/resources/desktop.
pub mod Keyed
pub mod Types
pub mod Volumes
pub mod Reclaim
pub mod Freed
pub mod Finalized
pub mod Mapped
pub mod Kept
pub mod Returned
pub mod Tests
