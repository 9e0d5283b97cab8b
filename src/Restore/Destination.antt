-- ===== src/Restore/Destination.antt =====
-- CreateReplicationDestination and its builders of controllers/replicationdestination.go
use volume_snapshot_mover.Prelude.{
  String, Bool, true, false, Option, none, some, [], ◌∷◌, StringMap, text_at, concat, ◌==◌,
  if◌then◌else◌,
}
use volume_snapshot_mover.Secret.Keys.{vsr_label}
use volume_snapshot_mover.Secret.Build.{new_meta}
use volume_snapshot_mover.Security.{get_pod_security_context}
use volume_snapshot_mover.Config.{
  config_data, range_keys, get_data_mover_config_map, get_velero_service_account,
}
use volume_snapshot_mover.Api.Meta.{Quantity, is_zero}
use volume_snapshot_mover.Api.Restore.{VolumeSnapshotRestore}
use volume_snapshot_mover.Api.Cluster.{Secret, ConfigMap, ServiceAccount}
use volume_snapshot_mover.Api.VolSync.{
  CopyMethod, VolumeOptions, ResticSpec, ReplicationSpec, ReplicationDestination,
}
use volume_snapshot_mover.Exec.{Kind, Exec, pure, deref, ◌>>=◌, ◌>>◌, or_missing}
use volume_snapshot_mover.Client.{Client, Reconciler, get_object, create_or_update}
use volume_snapshot_mover.Backup.Source.Options.{bare_spec}
use volume_snapshot_mover.Backup.Source.Create.{pass_custom_ca}
use volume_snapshot_mover.Restore.Fetch.{with_vsr, destination_name, vsr_secret_name}

abbrev pub destination_storage_class_name : String
destination_storage_class_name = "DestinationStorageClassName"

abbrev pub destination_access_mode : String
destination_access_mode = "DestinationAccessMode"

abbrev pub destination_cache_storage_class_name : String
destination_cache_storage_class_name = "DestinationCacheStorageClassName"

abbrev pub destination_cache_access_mode : String
destination_cache_access_mode = "DestinationCacheAccessMode"

abbrev pub destination_cache_capacity : String
destination_cache_capacity = "DestinationCacheCapacity"

abbrev pub destination_mover_security_context : String
destination_mover_security_context = "DestinationMoverSecurityContext"

-- One turn of the loop of configureRepDestVolOptions.
unfoldable pub set_destination_option : StringMap String → String → VolumeOptions → VolumeOptions
set_destination_option m key o =
    if key == destination_storage_class_name
    then record o { storage_class_name = some (text_at m key) }
    else if key == destination_access_mode
    then record o { access_modes = some (text_at m key ∷ []) }
    else o

unfoldable pub configure_rep_dest_vol_options :
    VolumeSnapshotRestore → Quantity → Option ConfigMap → VolumeOptions
unfolding set_destination_option range_keys
configure_rep_dest_vol_options vsr capacity cm =
    range_keys (set_destination_option (config_data cm)) (config_data cm) (record {
      copy_method = CopyMethod.snapshot;
      capacity = some capacity;
      volume_snapshot_class_name =
          some vsr.spec.volume_snapshot_mover_backupref.volume_snapshot_class_name;
      storage_class_name =
          some vsr.spec.volume_snapshot_mover_backupref.backed_up_pvc_data.storage_class_name;
      access_modes = some ("ReadWriteOnce" ∷ []);
    })

abbrev pub no_destination : (name namespace vsr_name : String) → ReplicationDestination
no_destination name namespace vsr_name = record {
  meta = new_meta name namespace vsr_label vsr_name;
  spec = record { source_pvc = ""; trigger = none; restic = none };
  status = none;
}

module _ {W : Type 0} (c : Client W) where
  -- One turn of the loop; a capacity that does not parse is a panic of `MustParse`.
  unfoldable pub set_destination_cache :
      VolumeSnapshotRestore → StringMap String → String → ResticSpec → Exec W ResticSpec
  set_destination_cache vsr m key o =
      if key == destination_cache_storage_class_name
      then pure (record o { cache_storage_class_name = some (text_at m key) })
      else if key == destination_cache_access_mode
      then pure (record o { cache_access_modes = some (text_at m key ∷ []) })
      else if key == destination_cache_capacity
      then (do
        capacity ← deref (c.parse_quantity (text_at m key))
        pure (record o { cache_capacity = some capacity }))
      else if key == destination_mover_security_context
      then (if text_at m key == "true"
          then (do
            pod_sc ←
                get_pod_security_context c vsr.meta.namespace
                  vsr.spec.volume_snapshot_mover_backupref.backed_up_pvc_data.name
            pure (record o { mover_security_context = pod_sc }))
          else pure o)
      else pure o

  unfoldable pub set_destination_caches :
      VolumeSnapshotRestore → (m rest : StringMap String) → ResticSpec → Exec W ResticSpec
  unfolding set_destination_cache
  set_destination_caches vsr m [] o = pure o
  set_destination_caches vsr m ((key, val) ∷ rest) o = do
    o' ← set_destination_cache vsr m key o
    set_destination_caches vsr m rest o'

  unfoldable pub configure_rep_dest_restic_vol_options :
      VolumeSnapshotRestore
      → (restic_secret_name : String) → Option ConfigMap
      → Quantity
      → ServiceAccount
      → Exec W ResticSpec
  unfolding set_destination_caches
  configure_rep_dest_restic_vol_options vsr restic_secret_name cm capacity sa = do
    o ←
        set_destination_caches vsr (config_data cm) (config_data cm)
          (bare_spec restic_secret_name sa)
    pure (record o { volume_options = some (configure_rep_dest_vol_options vsr capacity cm) })

  unfoldable pub build_replication_destination :
      VolumeSnapshotRestore
      → Secret
      → Option ConfigMap
      → ServiceAccount
      → ReplicationDestination
      → Exec W ReplicationDestination
  build_replication_destination vsr restic_secret cm sa rep_dest = do
    capacity ←
        deref (c.parse_quantity vsr.spec.volume_snapshot_mover_backupref.backed_up_pvc_data.size)
    vol_options ← configure_rep_dest_restic_vol_options vsr restic_secret.meta.name cm capacity sa
    let spec : ReplicationSpec = record {
      source_pvc = "";
      trigger = some (record { manual = concat vsr.meta.name "-trigger"; schedule = none });
      restic = some vol_options;
    }
    built ←
        pass_custom_ca restic_secret
          (if is_zero rep_dest.meta.creation_timestamp then spec else rep_dest.spec)
    pure (record rep_dest { spec = built })

module _ {W : Type 0} (c : Client W) (r : Reconciler) where
  unfoldable pub place_destination : VolumeSnapshotRestore → Secret → Exec W Bool
  unfolding build_replication_destination
  place_destination vsr restic_secret = do
    cm ←
        get_data_mover_config_map c vsr.spec.protected_namespace
          vsr.spec.volume_snapshot_mover_backupref.backed_up_pvc_data.storage_class_name
    velero_sa ← get_velero_service_account c vsr.spec.protected_namespace
    create_or_update Kind.replication_destination c.replication_destinations
        (record { namespace = r.namespaced_name.namespace; name = destination_name vsr })
        (no_destination (destination_name vsr) r.namespaced_name.namespace vsr.meta.name)
        (build_replication_destination c vsr restic_secret cm velero_sa)
    pure true

  unfoldable pub create_replication_destination : Exec W Bool
  unfolding place_destination
  create_replication_destination = with_vsr c r λ vsr.
      or_missing
        (get_object Kind.secret c.secrets
          (record { namespace = r.namespaced_name.namespace; name = vsr_secret_name vsr }))
        (pure false) (λ restic_secret. place_destination vsr restic_secret)
