-- ===== src/Api/Restore/Phase.antt =====
-- The comparisons of a phase text with its constants (api/v1alpha1/volumesnapshotrestore_types.go).
use volume_snapshot_mover.Prelude.{Bool, true, false}
use volume_snapshot_mover.Api.Restore.{VolumeSnapshotRestorePhase}

abbrev pub is_completed : VolumeSnapshotRestorePhase → Bool
is_completed VolumeSnapshotRestorePhase.completed = true
is_completed _ = false

abbrev pub is_vol_sync_completed : VolumeSnapshotRestorePhase → Bool
is_vol_sync_completed VolumeSnapshotRestorePhase.vol_sync_completed = true
is_vol_sync_completed _ = false

abbrev pub is_failed : VolumeSnapshotRestorePhase → Bool
is_failed VolumeSnapshotRestorePhase.failed = true
is_failed _ = false

abbrev pub is_partially_failed : VolumeSnapshotRestorePhase → Bool
is_partially_failed VolumeSnapshotRestorePhase.partially_failed = true
is_partially_failed _ = false
