-- ===== src/Backup.antt =====
-- The VolumeSnapshotBackup controller: controllers/volumesnapshotbackup_controller.go and the
-- steps that it runs.
pub mod Fetch
pub mod Validate
pub mod Snapshots
pub mod Claims
pub mod Restic
pub mod Settings
pub mod Source
pub mod Status
pub mod Cleanup
pub mod Deletions
pub mod Reconcile
pub mod Stable
pub mod Limit
pub mod Settled
pub mod Progress
pub mod Places
pub mod Server
pub mod Waits
pub mod Guard
