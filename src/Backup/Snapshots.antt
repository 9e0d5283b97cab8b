-- ===== src/Backup/Snapshots.antt =====
-- The backup steps of controllers/volumesnapshot.go: the clones of the VolumeSnapshotContent and
-- of the VolumeSnapshot.
use volume_snapshot_mover.Prelude.{
  String, Bool, true, false, not, Option, none, some, concat, ◌==◌, if◌then◌else◌,
}
use volume_snapshot_mover.Secret.Keys.{vsb_label}
use volume_snapshot_mover.Secret.Build.{new_meta}
use volume_snapshot_mover.Api.Meta.{ObjectReference, is_zero}
use volume_snapshot_mover.Api.Backup.{VolumeSnapshotBackup}
use volume_snapshot_mover.Api.Cluster.{
  VolumeSnapshotContent, VolumeSnapshotContentSpec, VolumeSnapshotContentStatus, VolumeSnapshot,
  VolumeSnapshotStatus,
}
use volume_snapshot_mover.Exec.{Kind, Exec, pure, deref, ◌>>=◌, ◌>>◌, if_nil, or_else}
use volume_snapshot_mover.Client.{
  Client, Reconciler, get_object, create_or_update, update_vsb_status,
}
use volume_snapshot_mover.Backup.Fetch.{with_open_vsb, in_protected, cluster_wide, clone_name}

-- The zero values of the two objects, with their metadata.
abbrev pub no_reference : ObjectReference
no_reference = record { api_version = ""; kind = ""; namespace = ""; name = "" }

abbrev pub new_content : VolumeSnapshotBackup → (name : String) → VolumeSnapshotContent
new_content vsb name = record {
  meta = new_meta name "" vsb_label vsb.meta.name;
  spec = record {
    deletion_policy = "";
    driver = "";
    volume_snapshot_ref = no_reference;
    volume_snapshot_class_name = none;
    snapshot_handle = none;
  };
  status = none;
}

abbrev pub new_snapshot : VolumeSnapshotBackup → (name : String) → VolumeSnapshot
new_snapshot vsb name = record {
  meta = new_meta name vsb.spec.protected_namespace vsb_label vsb.meta.name;
  kind = "";
  persistent_volume_claim_name = none;
  volume_snapshot_content_name = none;
  status = none;
}

-- `status != nil && ReadyToUse != nil && *ReadyToUse == true`
abbrev pub content_is_ready : Option VolumeSnapshotContentStatus → Bool
content_is_ready none = false
content_is_ready (some status) = elim status.ready_to_use [ none ↦ false | some b ↦ b ]

-- `ReadyToUse != nil && *ReadyToUse != true`
abbrev pub says_not_ready : Option Bool → Bool
says_not_ready none = false
says_not_ready (some b) = not b

-- A spec that points to the same snapshot handle.
unfoldable pub cloned_spec :
    VolumeSnapshotContent
    → VolumeSnapshotContent
    → VolumeSnapshotBackup
    → VolumeSnapshotContentStatus
    → VolumeSnapshotContentSpec
cloned_spec vsc_in_cluster vsc_clone vsb status = record {
  deletion_policy = vsc_in_cluster.spec.deletion_policy;
  driver = vsc_in_cluster.spec.driver;
  volume_snapshot_ref = record {
    api_version = vsc_in_cluster.spec.volume_snapshot_ref.api_version;
    kind = vsc_in_cluster.spec.volume_snapshot_ref.kind;
    namespace = vsb.spec.protected_namespace;
    name = concat vsc_clone.meta.name "-volumesnapshot";
  };
  volume_snapshot_class_name = vsc_in_cluster.spec.volume_snapshot_class_name;
  snapshot_handle = status.snapshot_handle;
}

unfoldable pub build_volume_snapshot_clone : VolumeSnapshot → VolumeSnapshotContent → VolumeSnapshot
build_volume_snapshot_clone vs_clone vsc_clone =
    if is_zero vs_clone.meta.creation_timestamp
    then record vs_clone {
      persistent_volume_claim_name = none;
      volume_snapshot_content_name = some vsc_clone.meta.name;
    }
    else vs_clone

module _ {W : Type 0} (c : Client W) (r : Reconciler) where
  unfoldable pub build_volume_snapshot_content_clone :
      VolumeSnapshotBackup → VolumeSnapshotContent → Exec W VolumeSnapshotContent
  unfolding cloned_spec
  build_volume_snapshot_content_clone vsb vsc_clone = do
    vsc_in_cluster ←
        get_object Kind.volume_snapshot_content c.volume_snapshot_contents
          (cluster_wide vsb.spec.volume_snapshot_content.name)
    status ← deref vsc_in_cluster.status
    let built =
        if is_zero vsc_clone.meta.creation_timestamp
        then record vsc_clone { spec = cloned_spec vsc_in_cluster vsc_clone vsb status }
        else vsc_clone
    if vsb.status.volume_snapshot_class_name == ""
        then (do
          class ← deref built.spec.volume_snapshot_class_name
          update_vsb_status c
              (record vsb { status = record (vsb.status) { volume_snapshot_class_name = class } })
          pure built)
        else pure built

  unfoldable pub mirror_volume_snapshot_content : Exec W Bool
  unfolding build_volume_snapshot_content_clone
  mirror_volume_snapshot_content = with_open_vsb c r λ vsb. do
    vsc_in_cluster ←
        get_object Kind.volume_snapshot_content c.volume_snapshot_contents
          (cluster_wide vsb.spec.volume_snapshot_content.name)
    if_nil vsc_in_cluster.status (pure false) λ status.
        if says_not_ready status.ready_to_use then pure false else (do
          create_or_update Kind.volume_snapshot_content c.volume_snapshot_contents
              (cluster_wide (concat vsc_in_cluster.meta.name "-clone"))
              (new_content vsb (concat vsc_in_cluster.meta.name "-clone"))
              (build_volume_snapshot_content_clone vsb)
          pure true)

  unfoldable pub mirror_volume_snapshot : Exec W Bool
  unfolding build_volume_snapshot_clone
  mirror_volume_snapshot = with_open_vsb c r λ vsb. do
    vsc_clone ←
        get_object Kind.volume_snapshot_content c.volume_snapshot_contents
          (cluster_wide (clone_name vsb))
    if content_is_ready vsc_clone.status
        then (do
          create_or_update Kind.volume_snapshot c.volume_snapshots
              (in_protected vsb vsc_clone.spec.volume_snapshot_ref.name)
              (new_snapshot vsb vsc_clone.spec.volume_snapshot_ref.name)
              (λ vs_clone. pure (build_volume_snapshot_clone vs_clone vsc_clone))
          pure true)
        else pure false

  -- Both outcomes of the last test return `true`; the test itself may dereference nil.
  unfoldable pub look_at_snapshot : VolumeSnapshotContent → VolumeSnapshotStatus → Exec W Bool
  look_at_snapshot vsc_clone status = do
    ready ← deref status.ready_to_use
    if ready
        then (do
          bound ← deref status.bound_volume_snapshot_content_name
          if bound == vsc_clone.meta.name then pure true else pure true)
        else pure true

  unfoldable pub wait_for_cloned_volume_snapshot_to_be_ready : Exec W Bool
  unfolding look_at_snapshot
  wait_for_cloned_volume_snapshot_to_be_ready = with_open_vsb c r λ vsb. do
    vsc_clone ←
        get_object Kind.volume_snapshot_content c.volume_snapshot_contents
          (cluster_wide (clone_name vsb))
    or_else
        (get_object Kind.volume_snapshot c.volume_snapshots
          (in_protected vsb vsc_clone.spec.volume_snapshot_ref.name))
        (pure false) (λ vs_clone. if_nil vs_clone.status (pure true) (look_at_snapshot vsc_clone))

  unfoldable pub wait_for_cloned_volume_snapshot_content_to_be_ready : Exec W Bool
  wait_for_cloned_volume_snapshot_content_to_be_ready = with_open_vsb c r λ vsb. do
    vsc_clone ←
        get_object Kind.volume_snapshot_content c.volume_snapshot_contents
          (cluster_wide (clone_name vsb))
    if_nil vsc_clone.status (pure true)
        λ status. do ready ← deref status.ready_to_use; if ready then pure true else pure true
