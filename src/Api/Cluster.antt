-- ===== src/Api/Cluster.antt =====
-- The fields that the controllers use of the Kubernetes, CSI snapshot and Velero objects.
use volume_snapshot_mover.Prelude.{String, Bool, Option, List, StringMap}
use volume_snapshot_mover.Prelude.Int.{ℤ}
use volume_snapshot_mover.Api.Meta.{ObjectMeta, ObjectReference, Quantity}

-- `data_of` is `none` where the map is nil. A byte slice is a text.
pub record Secret : Type 0 where
  pub meta : ObjectMeta
  pub data_of : Option (StringMap String)

pub record ConfigMap : Type 0 where
  pub meta : ObjectMeta
  pub data_of : Option (StringMap String)

pub record ServiceAccount : Type 0 where
  pub meta : ObjectMeta

pub record StorageClass : Type 0 where
  pub meta : ObjectMeta

pub record VolumeSnapshotClass : Type 0 where
  pub meta : ObjectMeta

pub record VolumeSnapshotContentSpec : Type 0 where
  pub deletion_policy : String
  pub driver : String
  pub volume_snapshot_ref : ObjectReference
  pub volume_snapshot_class_name : Option String
  pub snapshot_handle : Option String

pub record VolumeSnapshotContentStatus : Type 0 where
  pub ready_to_use : Option Bool
  pub snapshot_handle : Option String
  pub restore_size : Option ℤ

pub record VolumeSnapshotContent : Type 0 where
  pub meta : ObjectMeta
  pub spec : VolumeSnapshotContentSpec
  pub status : Option VolumeSnapshotContentStatus

pub record VolumeSnapshotStatus : Type 0 where
  pub ready_to_use : Option Bool
  pub bound_volume_snapshot_content_name : Option String

pub record VolumeSnapshot : Type 0 where
  pub meta : ObjectMeta
  pub kind : String
  pub persistent_volume_claim_name : Option String
  pub volume_snapshot_content_name : Option String
  pub status : Option VolumeSnapshotStatus

-- corev1.PersistentVolumeClaimPhase
pub data ClaimPhase : Type 0 where
  pending bound lost : ClaimPhase

pub record TypedLocalObjectReference : Type 0 where
  pub name : String
  pub kind : String
  pub api_group : String

-- `access_modes` is `none` where the slice is nil.
pub record PersistentVolumeClaim : Type 0 where
  pub meta : ObjectMeta
  pub data_source : Option TypedLocalObjectReference
  pub storage_class_name : Option String
  pub access_modes : Option (List String)
  pub storage_request : Quantity
  pub phase : ClaimPhase

-- corev1.SecurityContext and corev1.PodSecurityContext: the fields that both have, and the rest
-- of the pod's as one text.
pub record SecurityContext : Type 0 where
  pub se_linux_options : Option String
  pub windows_options : Option String
  pub run_as_user : Option ℤ
  pub run_as_group : Option ℤ
  pub run_as_non_root : Option Bool

pub record PodSecurityContext : Type 0 where
  pub se_linux_options : Option String
  pub windows_options : Option String
  pub run_as_user : Option ℤ
  pub run_as_group : Option ℤ
  pub run_as_non_root : Option Bool
  pub rest : String

pub record EnvVar : Type 0 where
  pub name : String
  pub value : String

pub record VolumeMount : Type 0 where
  pub name : String
  pub mount_path : String
  pub read_only : Bool

pub record Container : Type 0 where
  pub name : String
  pub image : String
  pub command : List String
  pub volume_mounts : List VolumeMount
  pub env : List EnvVar
  pub security_context : Option SecurityContext

-- `claim` is the name of the claim that the volume mounts, if it mounts one.
pub record Volume : Type 0 where
  pub name : String
  pub claim : Option String
  pub read_only : Bool

pub record Pod : Type 0 where
  pub meta : ObjectMeta
  pub containers : List Container
  pub volumes : List Volume
  pub restart_policy : String
  pub security_context : Option PodSecurityContext

pub record Deployment : Type 0 where
  pub meta : ObjectMeta
  pub containers : List Container

-- The phases of a Velero backup or restore that the controllers tell apart.
pub data VeleroPhase : Type 0 where
  failed partially_failed other : VeleroPhase

pub record VeleroRun : Type 0 where
  pub meta : ObjectMeta
  pub phase : VeleroPhase
