-- ===== src/Api/Restore/Batching.antt =====
-- The comparisons of a batching text with its constants (api/v1alpha1/volumesnapshotrestore_types.go).
use volume_snapshot_mover.Prelude.{Bool, true, false}
use volume_snapshot_mover.Api.Restore.{VolumeSnapshotRestoreBatchingStatus}

abbrev pub is_unset : VolumeSnapshotRestoreBatchingStatus → Bool
is_unset VolumeSnapshotRestoreBatchingStatus.unset = true
is_unset _ = false

abbrev pub is_queued : VolumeSnapshotRestoreBatchingStatus → Bool
is_queued VolumeSnapshotRestoreBatchingStatus.queued = true
is_queued _ = false

abbrev pub is_completed : VolumeSnapshotRestoreBatchingStatus → Bool
is_completed VolumeSnapshotRestoreBatchingStatus.completed = true
is_completed _ = false
