-- ===== src/Api/VolSync.antt =====
-- The fields that the controllers use of the VolSync objects.
use volume_snapshot_mover.Prelude.{String, Option, List}
use volume_snapshot_mover.Prelude.Int.{ℤ}
use volume_snapshot_mover.Api.Meta.{Time, ObjectMeta, Quantity, Condition}
use volume_snapshot_mover.Api.Cluster.{PodSecurityContext}

-- volsync's CopyMethodType
pub data CopyMethod : Type 0 where
  direct snapshot : CopyMethod

pub record ResticRetainPolicy : Type 0 where
  pub hourly : Option ℤ
  pub daily : Option ℤ
  pub weekly : Option ℤ
  pub monthly : Option ℤ
  pub yearly : Option ℤ
  pub within : Option String

-- ReplicationSourceVolumeOptions and ReplicationDestinationVolumeOptions
pub record VolumeOptions : Type 0 where
  pub copy_method : CopyMethod
  pub capacity : Option Quantity
  pub volume_snapshot_class_name : Option String
  pub storage_class_name : Option String
  pub access_modes : Option (List String)

pub record CustomCa : Type 0 where
  pub secret_name : String
  pub key : String

-- ReplicationSourceResticSpec and ReplicationDestinationResticSpec
pub record ResticSpec : Type 0 where
  pub volume_options : Option VolumeOptions
  pub repository : String
  pub custom_ca : CustomCa
  pub prune_interval_days : Option ℤ
  pub retain : Option ResticRetainPolicy
  pub mover_service_account : Option String
  pub cache_storage_class_name : Option String
  pub cache_access_modes : Option (List String)
  pub cache_capacity : Option Quantity
  pub mover_security_context : Option PodSecurityContext

-- A zero trigger has an empty `manual` and no `schedule`.
pub record Trigger : Type 0 where
  pub manual : String
  pub schedule : Option String

pub record ReplicationSpec : Type 0 where
  pub source_pvc : String
  pub trigger : Option Trigger
  pub restic : Option ResticSpec

pub record ReplicationStatus : Type 0 where
  pub last_sync_start_time : Option Time
  pub last_sync_time : Option Time
  pub next_sync_time : Option Time
  pub last_manual_sync : String
  pub latest_image : Option String
  pub conditions : List Condition

pub record ReplicationSource : Type 0 where
  pub meta : ObjectMeta
  pub spec : ReplicationSpec
  pub status : Option ReplicationStatus

-- The spec's `source_pvc` is empty in a destination.
pub record ReplicationDestination : Type 0 where
  pub meta : ObjectMeta
  pub spec : ReplicationSpec
  pub status : Option ReplicationStatus
