-- ===== src/Client.antt =====
-- What the controllers use of code outside the repository: the controller-runtime client, and the
-- functions of other packages. All of it is a parameter; the world `W` behind it is arbitrary.
use volume_snapshot_mover.Prelude.{String, Bool, Option, List}
use volume_snapshot_mover.Prelude.Int.{ℤ}
use volume_snapshot_mover.Api.Meta.{Time, Quantity, NamespacedName, ObjectMeta, Condition}
use volume_snapshot_mover.Api.Backup.{VolumeSnapshotBackup}
use volume_snapshot_mover.Api.Restore.{VolumeSnapshotRestore}
use volume_snapshot_mover.Api.Cluster.{
  Secret, ConfigMap, ServiceAccount, StorageClass, VolumeSnapshotClass, VolumeSnapshotContent,
  VolumeSnapshot, PersistentVolumeClaim, Pod, Deployment, VeleroRun,
}
use volume_snapshot_mover.Api.VolSync.{ReplicationSource, ReplicationDestination}
use volume_snapshot_mover.Exec.{Kind, Call, Result, Exec, request, ◌>>=◌}

-- One kind of object at the API server. `prepare` and `apply` are the two halves of
-- controllerutil.CreateOrUpdate: the object that its callback is handed (the stored one, or the
-- given one if none is stored), and the write of what the callback leaves.
pub record Resource (W A : Type 0) : Type 0 where
  pub read : NamespacedName → W → Result A × W
  pub read_all : String → W → Result (List A) × W
  pub prepare : A → W → Result A × W
  pub store : A → W → Result A × W

pub record Client (W : Type 0) : Type 0 where
  pub vsbs : Resource W VolumeSnapshotBackup
  pub vsrs : Resource W VolumeSnapshotRestore
  pub secrets : Resource W Secret
  pub config_maps : Resource W ConfigMap
  pub service_accounts : Resource W ServiceAccount
  pub storage_classes : Resource W StorageClass
  pub volume_snapshot_classes : Resource W VolumeSnapshotClass
  pub volume_snapshot_contents : Resource W VolumeSnapshotContent
  pub volume_snapshots : Resource W VolumeSnapshot
  pub claims : Resource W PersistentVolumeClaim
  pub pods : Resource W Pod
  pub deployments : Resource W Deployment
  pub velero_backups : Resource W VeleroRun
  pub velero_restores : Resource W VeleroRun
  pub replication_sources : Resource W ReplicationSource
  pub replication_destinations : Resource W ReplicationDestination
  -- Update and Status().Update leave the server's answer in the object.
  pub vsb_update : VolumeSnapshotBackup → W → Result VolumeSnapshotBackup × W
  pub vsb_status_update : VolumeSnapshotBackup → W → Result VolumeSnapshotBackup × W
  pub vsr_update : VolumeSnapshotRestore → W → Result VolumeSnapshotRestore × W
  pub vsr_status_update : VolumeSnapshotRestore → W → Result VolumeSnapshotRestore × W
  pub delete_matching :
      Kind → (label : String) → (value : String) → (namespace : String) → W → Result Unit × W
  -- metav1.Now, os.Getenv
  pub clock : W → Result Time × W
  pub getenv : String → String
  -- apimeta.SetStatusCondition, controllerutil's finalizers
  pub set_status_condition : List Condition → Condition → List Condition
  pub contains_finalizer : ObjectMeta → String → Bool
  pub add_finalizer : ObjectMeta → String → ObjectMeta
  pub remove_finalizer : ObjectMeta → String → ObjectMeta
  -- constants of the VolSync API: the condition type and two reasons of it
  pub condition_synchronizing : String
  pub synchronizing_reason_sync : String
  pub synchronizing_reason_error : String
  -- resource.Quantity: ParseQuantity, AsInt64, NewQuantity in BinarySI
  pub parse_quantity : String → Option Quantity
  pub as_int64 : Quantity → ℤ
  pub new_quantity : ℤ → Quantity

-- The struct fields of a reconciler that change: the request, and the protected namespace with
-- the name of the object.
pub record Reconciler : Type 0 where
  pub req : NamespacedName
  pub namespaced_name : NamespacedName

module _ {W A : Type 0} where
  -- `r.Get(r.Context, key, &obj)`
  unfoldable pub get_object : Kind → Resource W A → NamespacedName → Exec W A
  get_object k r key = request (Call.get k key) (r.read key)

  -- `r.List(r.Context, &list, …)`; all namespaces are the empty one.
  unfoldable pub list_objects : Kind → Resource W A → String → Exec W (List A)
  list_objects k r ns = request (Call.list_all k ns) (r.read_all ns)

  -- `controllerutil.CreateOrUpdate(r.Context, r.Client, obj, f)`: what it returns beside the
  -- error is used for an event only.
  unfoldable pub create_or_update :
      Kind → Resource W A → NamespacedName → A → (A → Exec W A) → Exec W A
  create_or_update k r key obj f = do
    found ← request (Call.get k key) (r.prepare obj)
    built ← f found
    request (Call.apply k key) (r.store built)

module _ {W : Type 0} (c : Client W) where
  unfoldable pub update_vsb : VolumeSnapshotBackup → Exec W VolumeSnapshotBackup
  update_vsb vsb = request (Call.update_vsb vsb) (c.vsb_update vsb)

  unfoldable pub update_vsb_status : VolumeSnapshotBackup → Exec W VolumeSnapshotBackup
  update_vsb_status vsb = request (Call.status_vsb vsb) (c.vsb_status_update vsb)

  unfoldable pub update_vsr : VolumeSnapshotRestore → Exec W VolumeSnapshotRestore
  update_vsr vsr = request (Call.update_vsr vsr) (c.vsr_update vsr)

  unfoldable pub update_vsr_status : VolumeSnapshotRestore → Exec W VolumeSnapshotRestore
  update_vsr_status vsr = request (Call.status_vsr vsr) (c.vsr_status_update vsr)

  unfoldable pub delete_all_of : Kind → String → String → String → Exec W Unit
  delete_all_of k label value ns =
      request (Call.delete_all_of k label value ns) (c.delete_matching k label value ns)

  -- `metav1.Now()`: no request.
  unfoldable pub now : Exec W Time
  now s = let (r, w) = c.clock s.world in (r, record s { world = w })
