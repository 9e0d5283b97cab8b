-- ===== src/Api/Backup/Phase.antt =====
-- The comparisons of a phase text with its constants (api/v1alpha1/volumesnapshotbackup_types.go).
use volume_snapshot_mover.Prelude.{Bool, true, false}
use volume_snapshot_mover.Api.Backup.{VolumeSnapshotBackupPhase}

abbrev pub is_completed : VolumeSnapshotBackupPhase → Bool
is_completed VolumeSnapshotBackupPhase.completed = true
is_completed _ = false

abbrev pub is_vol_sync_completed : VolumeSnapshotBackupPhase → Bool
is_vol_sync_completed VolumeSnapshotBackupPhase.vol_sync_completed = true
is_vol_sync_completed _ = false

abbrev pub is_failed : VolumeSnapshotBackupPhase → Bool
is_failed VolumeSnapshotBackupPhase.failed = true
is_failed _ = false

abbrev pub is_partially_failed : VolumeSnapshotBackupPhase → Bool
is_partially_failed VolumeSnapshotBackupPhase.partially_failed = true
is_partially_failed _ = false

abbrev pub is_unset : VolumeSnapshotBackupPhase → Bool
is_unset VolumeSnapshotBackupPhase.unset = true
is_unset _ = false
