-- ===== src/Backup/Stable.antt =====
-- The steps of the backup controller keep every property that plain requests keep.
pub mod Helpers
pub mod Steps
pub mod Reconcile
pub mod Counters
