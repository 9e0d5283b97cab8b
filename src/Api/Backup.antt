-- ===== src/Api/Backup.antt =====
-- api/v1alpha1/volumesnapshotbackup_types.go
pub mod Phase
pub mod Batching
use volume_snapshot_mover.Prelude.{String, Bool, Option, List}
use volume_snapshot_mover.Api.Meta.{Time, ObjectMeta, ObjectReference, Condition, PvcData}

-- The phase is a text in the API: `unset` is the empty text, `other` any text with no constant.
pub data VolumeSnapshotBackupPhase : Type 0 where
  unset vol_sync_completed completed in_progress failed partially_failed cleanup :
      VolumeSnapshotBackupPhase
  other : String → VolumeSnapshotBackupPhase

pub data VolumeSnapshotBackupBatchingStatus : Type 0 where
  unset completed queued processing : VolumeSnapshotBackupBatchingStatus
  other : String → VolumeSnapshotBackupBatchingStatus

pub record ReplicationSourceData : Type 0 where
  pub name : String
  pub start_timestamp : Option Time
  pub completion_timestamp : Option Time

pub record VolumeSnapshotBackupSpec : Type 0 where
  pub volume_snapshot_content : ObjectReference
  pub protected_namespace : String
  pub restic_secret_ref : String

pub record VolumeSnapshotBackupStatus : Type 0 where
  pub is_completed : Bool
  pub conditions : List Condition
  pub source_pvc_data : PvcData
  pub restic_repository : String
  pub phase : VolumeSnapshotBackupPhase
  pub batching_status : VolumeSnapshotBackupBatchingStatus
  pub volume_snapshot_class_name : String
  pub start_timestamp : Option Time
  pub completion_timestamp : Option Time
  pub replication_source_data : ReplicationSourceData

pub record VolumeSnapshotBackup : Type 0 where
  pub meta : ObjectMeta
  pub spec : VolumeSnapshotBackupSpec
  pub status : VolumeSnapshotBackupStatus
