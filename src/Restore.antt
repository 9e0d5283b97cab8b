-- ===== src/Restore.antt =====
-- The VolumeSnapshotRestore controller: controllers/volumesnapshotrestore_controller.go and the
-- steps that it runs.
pub mod Fetch
pub mod Validate
pub mod Restic
pub mod Destination
pub mod Snapshots
pub mod Status
pub mod Cleanup
pub mod Reconcile
pub mod Settled
pub mod Stable
pub mod Counters
pub mod Limit
pub mod Guard
pub mod Handed
pub mod Deleted
pub mod Server
