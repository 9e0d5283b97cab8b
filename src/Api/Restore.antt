-- ===== src/Api/Restore.antt =====
-- api/v1alpha1/volumesnapshotrestore_types.go
pub mod Phase
pub mod Batching
use volume_snapshot_mover.Prelude.{String, Option, List}
use volume_snapshot_mover.Api.Meta.{Time, ObjectMeta, Condition, PvcData}

pub data VolumeSnapshotRestorePhase : Type 0 where
  unset vol_sync_completed completed in_progress failed partially_failed cleanup :
      VolumeSnapshotRestorePhase
  other : String → VolumeSnapshotRestorePhase

pub data VolumeSnapshotRestoreBatchingStatus : Type 0 where
  unset completed queued processing : VolumeSnapshotRestoreBatchingStatus
  other : String → VolumeSnapshotRestoreBatchingStatus

pub record VsbRef : Type 0 where
  pub backed_up_pvc_data : PvcData
  pub restic_repository : String
  pub volume_snapshot_class_name : String

pub record ReplicationDestinationData : Type 0 where
  pub name : String
  pub start_timestamp : Option Time
  pub completion_timestamp : Option Time

pub record VolumeSnapshotRestoreSpec : Type 0 where
  pub restic_secret_ref : String
  pub volume_snapshot_mover_backupref : VsbRef
  pub protected_namespace : String

pub record VolumeSnapshotRestoreStatus : Type 0 where
  pub conditions : List Condition
  pub phase : VolumeSnapshotRestorePhase
  pub batching_status : VolumeSnapshotRestoreBatchingStatus
  pub snapshot_handle : String
  pub volume_snapshot_content_name : String
  pub start_timestamp : Option Time
  pub completion_timestamp : Option Time
  pub replication_destination_data : ReplicationDestinationData

pub record VolumeSnapshotRestore : Type 0 where
  pub meta : ObjectMeta
  pub spec : VolumeSnapshotRestoreSpec
  pub status : VolumeSnapshotRestoreStatus
