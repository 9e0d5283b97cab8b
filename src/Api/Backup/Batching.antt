-- ===== src/Api/Backup/Batching.antt =====
-- The comparisons of a batching text with its constants (api/v1alpha1/volumesnapshotbackup_types.go).
use volume_snapshot_mover.Prelude.{Bool, true, false}
use volume_snapshot_mover.Api.Backup.{VolumeSnapshotBackupBatchingStatus}

abbrev pub is_unset : VolumeSnapshotBackupBatchingStatus → Bool
is_unset VolumeSnapshotBackupBatchingStatus.unset = true
is_unset _ = false

abbrev pub is_queued : VolumeSnapshotBackupBatchingStatus → Bool
is_queued VolumeSnapshotBackupBatchingStatus.queued = true
is_queued _ = false

abbrev pub is_completed : VolumeSnapshotBackupBatchingStatus → Bool
is_completed VolumeSnapshotBackupBatchingStatus.completed = true
is_completed _ = false
