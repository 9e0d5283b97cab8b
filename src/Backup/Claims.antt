-- ===== src/Backup/Claims.antt =====
-- controllers/pvc.go: the clone of the source claim, the pod that binds it, and their checks.
use volume_snapshot_mover.Prelude.{
  String, Bool, true, false, Option, none, some, [], ◌∷◌, text_at, ◌==◌, if◌then◌else◌,
}
use volume_snapshot_mover.Prelude.Int.{ℤ, ltb_ℤ}
use volume_snapshot_mover.Secret.Keys.{vsb_label}
use volume_snapshot_mover.Secret.Build.{new_meta}
use volume_snapshot_mover.Security.{get_pod_security_context}
use volume_snapshot_mover.Config.{
  source_storage_class_name, source_access_mode, source_mover_security_context, config_data,
  range_keys, get_data_mover_config_map,
}
use volume_snapshot_mover.Api.Meta.{is_zero}
use volume_snapshot_mover.Api.Backup.{VolumeSnapshotBackup}
use volume_snapshot_mover.Api.Cluster.{
  ConfigMap, ClaimPhase, VolumeSnapshotContent, VolumeSnapshot, PersistentVolumeClaim, Pod,
}
use volume_snapshot_mover.Exec.{
  Error, Kind, Exec, pure, fail, deref, ◌>>=◌, ◌>>◌, if_nil, or_missing, or_else,
}
use volume_snapshot_mover.Client.{
  Client, Reconciler, get_object, create_or_update, update_vsb_status,
}
use volume_snapshot_mover.Backup.Fetch.{
  get_vsb, with_open_vsb, in_protected, cluster_wide, clone_name, claim_name, pod_name,
}

-- The larger of the source's request and the restore size of the snapshot.
unfoldable pub cloned_pvc_size : (restore_size source_request : ℤ) → ℤ
cloned_pvc_size restore_size source_request =
    if ltb_ℤ source_request restore_size then restore_size else source_request

-- One turn of the loop over the ConfigMap in buildPVCClone.
unfoldable pub configure_claim :
    Option ConfigMap → String → PersistentVolumeClaim → PersistentVolumeClaim
configure_claim cm key pvc =
    if key == source_storage_class_name
    then record pvc { storage_class_name = some (text_at (config_data cm) key) }
    else if key == source_access_mode
    then record pvc { access_modes = some (text_at (config_data cm) key ∷ []) }
    else pvc

abbrev pub or_default : {A : Type 0} → Option A → Option A → Option A
or_default none d = d
or_default (some a) d = some a

abbrev pub no_claim : (name namespace label value : String) → PersistentVolumeClaim
no_claim name namespace label value = record {
  meta = new_meta name namespace label value;
  data_source = none;
  storage_class_name = none;
  access_modes = none;
  storage_request = "";
  phase = ClaimPhase.pending;
}

abbrev pub is_bound : ClaimPhase → Bool
is_bound ClaimPhase.bound = true
is_bound _ = false

abbrev pub vs_is_ready : VolumeSnapshot → Bool
vs_is_ready vs = elim vs.status [
  | none ↦ false
  | some status ↦ elim status.ready_to_use [ none ↦ false | some b ↦ b ]
]

-- The fields of a claim that has not been created yet.
unfoldable pub fill_claim :
    VolumeSnapshot
    → Option ConfigMap
    → PersistentVolumeClaim
    → (request : String) → PersistentVolumeClaim
    → PersistentVolumeClaim
unfolding configure_claim range_keys
fill_claim vs_clone cm source_pvc request pvc_clone =
    let configured = range_keys (configure_claim cm) (config_data cm) (record pvc_clone {
      data_source = some (record {
        name = vs_clone.meta.name;
        kind = vs_clone.kind;
        api_group = "snapshot.storage.k8s.io";
      });
    }) in
    record configured {
      access_modes = or_default configured.access_modes source_pvc.access_modes;
      storage_class_name = or_default configured.storage_class_name source_pvc.storage_class_name;
      storage_request = request;
    }

module _ {W : Type 0} (c : Client W) where
  -- getDataMoverDummyPodImage
  unfoldable pub get_data_mover_dummy_pod_image : String
  get_data_mover_dummy_pod_image =
      if c.getenv "DATA_MOVER_DUMMY_POD_IMAGE" == ""
      then "quay.io/konveyor/rsync-transfer:latest"
      else c.getenv "DATA_MOVER_DUMMY_POD_IMAGE"

  unfoldable pub dummy_pod : VolumeSnapshotBackup → PersistentVolumeClaim → Pod
  unfolding get_data_mover_dummy_pod_image
  dummy_pod vsb cloned_pvc = record {
    meta = new_meta (pod_name vsb) vsb.spec.protected_namespace vsb_label vsb.meta.name;
    containers =
        record {
          name = "busybox";
          image = get_data_mover_dummy_pod_image;
          command = "/bin/sh" ∷ "-c" ∷ "tail -f /dev/null" ∷ [];
          volume_mounts =
              record { name = "vol1"; mount_path = "/mnt/volume1"; read_only = true } ∷ [];
          env = [];
          security_context = none;
        }
        ∷ [];
    volumes = record { name = "vol1"; claim = some cloned_pvc.meta.name; read_only = true } ∷ [];
    restart_policy = "Never";
    security_context = none;
  }

module _ {W : Type 0} (c : Client W) (r : Reconciler) where
  -- The source claim with the lookups' errors replaced; nil where the object is gone.
  unfoldable pub find_source_pvc : VolumeSnapshotBackup → Exec W PersistentVolumeClaim
  find_source_pvc vsb =
      or_else
        (get_object Kind.volume_snapshot_content c.volume_snapshot_contents
          (cluster_wide vsb.spec.volume_snapshot_content.name))
        (fail (Error.message "cannot obtain source volumesnapshotcontent"))
        (λ vsc_in_cluster.
          or_else
            (get_object Kind.volume_snapshot c.volume_snapshots (record {
              namespace = vsb.meta.namespace;
              name = vsc_in_cluster.spec.volume_snapshot_ref.name;
            }))
            (fail (Error.message "cannot obtain source volumesnapshot"))
            (λ vs_in_cluster.
              if_nil vs_in_cluster.persistent_volume_claim_name
                (fail (Error.message "PVC name not set on volume snapshot, cannot run VSB"))
                (λ name.
                  or_else
                    (get_object Kind.persistent_volume_claim c.claims
                      (record { namespace = vsb.meta.namespace; name = name }))
                    (fail (Error.message "cannot obtain source PVC")) (λ pvc. pure pvc))))

  unfoldable pub get_source_pvc : Exec W (Option PersistentVolumeClaim)
  unfolding find_source_pvc
  get_source_pvc = or_missing (get_vsb c r) (pure none) λ vsb. do
    pvc ← find_source_pvc vsb
    let recorded = vsb.status.source_pvc_data
    update_vsb_status c (record vsb {
      status = record (vsb.status) {
        source_pvc_data = record {
          name = pvc.meta.name;
          size = pvc.storage_request;
          storage_class_name = elim pvc.storage_class_name [
            | none ↦ recorded.storage_class_name
            | some class ↦ class
          ];
        };
      };
    })
    pure (some pvc)

  -- getSourcePVC may return nil, and so may each pointer that is dereferenced here.
  unfoldable pub build_pvc_clone :
      VolumeSnapshot → VolumeSnapshotContent → PersistentVolumeClaim → Exec W PersistentVolumeClaim
  unfolding cloned_pvc_size fill_claim
  build_pvc_clone vs_clone vsc_clone pvc_clone = do
    found ← get_source_pvc
    vsb ← get_vsb c r
    source_pvc ← deref found
    class ← deref source_pvc.storage_class_name
    cm ← get_data_mover_config_map c vsb.spec.protected_namespace class
    status ← deref vsc_clone.status
    restore_size ← deref status.restore_size
    let size = cloned_pvc_size restore_size (c.as_int64 source_pvc.storage_request)
    pure (
        if is_zero pvc_clone.meta.creation_timestamp
        then fill_claim vs_clone cm source_pvc (c.new_quantity size) pvc_clone
        else pvc_clone)

  unfoldable pub mirror_pvc : Exec W Bool
  mirror_pvc = with_open_vsb c r λ vsb. do
    vsc_clone ←
        get_object Kind.volume_snapshot_content c.volume_snapshot_contents
          (cluster_wide (clone_name vsb))
    or_else
        (get_object Kind.volume_snapshot c.volume_snapshots
          (in_protected vsb vsc_clone.spec.volume_snapshot_ref.name))
        (pure false)
        (λ vs_clone.
          if vs_is_ready vs_clone
          then (do
            create_or_update Kind.persistent_volume_claim c.claims
                (in_protected vsb (claim_name vsb))
                (no_claim (claim_name vsb) vsb.spec.protected_namespace vsb_label vsb.meta.name)
                (build_pvc_clone vs_clone vsc_clone)
            pure true)
          else pure false)

  unfoldable pub bind_pvc_to_dummy_pod : Exec W Bool
  unfolding dummy_pod
  bind_pvc_to_dummy_pod = with_open_vsb c r λ vsb. do
    cloned_pvc ←
        get_object Kind.persistent_volume_claim c.claims (in_protected vsb (claim_name vsb))
    cm ←
        get_data_mover_config_map c vsb.spec.protected_namespace
          vsb.status.source_pvc_data.storage_class_name
    pod ←
        (if text_at (config_data cm) source_mover_security_context == "true"
          then (do
            pod_sc ← get_pod_security_context c vsb.meta.namespace vsb.status.source_pvc_data.name
            pure (record (dummy_pod c vsb cloned_pvc) { security_context = pod_sc }))
          else pure (dummy_pod c vsb cloned_pvc))
    create_or_update Kind.pod c.pods (in_protected vsb (pod_name vsb)) pod (λ dp. pure dp)
    pure true

  unfoldable pub is_pvc_bound : Exec W Bool
  is_pvc_bound = with_open_vsb c r λ vsb. do
    cloned_pvc ←
        get_object Kind.persistent_volume_claim c.claims (in_protected vsb (claim_name vsb))
    if is_bound cloned_pvc.phase then pure true else pure false
