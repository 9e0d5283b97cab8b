-- ===== src/Backup/Source/Options.antt =====
-- configureRepSourceVolOptions and configureRepSourceResticVolOptions of
-- controllers/replicationsource.go
use volume_snapshot_mover.Prelude.{
  String, Option, none, some, [], ◌∷◌, StringMap, text_at, ◌==◌, if◌then◌else◌,
}
use volume_snapshot_mover.Secret.Build.{RetainPolicy}
use volume_snapshot_mover.Security.{get_pod_security_context}
use volume_snapshot_mover.Config.{
  source_storage_class_name, source_access_mode, source_cache_storage_class_name,
  source_cache_access_mode, source_cache_capacity, source_mover_security_context, config_data,
  range_keys,
}
use volume_snapshot_mover.Api.Backup.{VolumeSnapshotBackup}
use volume_snapshot_mover.Api.Cluster.{PersistentVolumeClaim, ConfigMap, ServiceAccount}
use volume_snapshot_mover.Api.VolSync.{CopyMethod, VolumeOptions, ResticSpec}
use volume_snapshot_mover.Exec.{Exec, pure, deref, from_result, ◌>>=◌}
use volume_snapshot_mover.Client.{Client}
use volume_snapshot_mover.Backup.Source.Retain.{configure_rep_source_snapshot_retain_policy}

-- One turn of the loop of configureRepSourceVolOptions.
unfoldable pub set_source_option : StringMap String → String → VolumeOptions → VolumeOptions
set_source_option m key o =
    if key == source_storage_class_name
    then record o { storage_class_name = some (text_at m key) }
    else if key == source_access_mode
    then record o { access_modes = some (text_at m key ∷ []) }
    else o

unfoldable pub configure_rep_source_vol_options :
    VolumeSnapshotBackup → PersistentVolumeClaim → Option ConfigMap → VolumeOptions
unfolding set_source_option range_keys
configure_rep_source_vol_options vsb pvc cm =
    range_keys (set_source_option (config_data cm)) (config_data cm) (record {
      copy_method = CopyMethod.direct;
      capacity = none;
      volume_snapshot_class_name = some vsb.status.volume_snapshot_class_name;
      storage_class_name = some vsb.status.source_pvc_data.storage_class_name;
      access_modes = pvc.access_modes;
    })

-- `ReplicationSourceResticSpec{}` with its repository and service account.
abbrev pub bare_spec : String → ServiceAccount → ResticSpec
bare_spec restic_secret_name sa = record {
  volume_options = none;
  repository = restic_secret_name;
  custom_ca = record { secret_name = ""; key = "" };
  prune_interval_days = none;
  retain = none;
  mover_service_account = some sa.meta.name;
  cache_storage_class_name = none;
  cache_access_modes = none;
  cache_capacity = none;
  mover_security_context = none;
}

module _ {W : Type 0} (c : Client W) where
  -- One turn of the loop; a capacity that does not parse is a panic of `MustParse`.
  unfoldable pub set_cache_option :
      VolumeSnapshotBackup → StringMap String → String → ResticSpec → Exec W ResticSpec
  set_cache_option vsb m key o =
      if key == source_cache_storage_class_name
      then pure (record o { cache_storage_class_name = some (text_at m key) })
      else if key == source_cache_access_mode
      then pure (record o { cache_access_modes = some (text_at m key ∷ []) })
      else if key == source_cache_capacity
      then (do
        capacity ← deref (c.parse_quantity (text_at m key))
        pure (record o { cache_capacity = some capacity }))
      else if key == source_mover_security_context
      then (if text_at m key == "true"
          then (do
            pod_sc ← get_pod_security_context c vsb.meta.namespace vsb.status.source_pvc_data.name
            pure (record o { mover_security_context = pod_sc }))
          else pure o)
      else pure o

  unfoldable pub set_cache_options :
      VolumeSnapshotBackup → (m rest : StringMap String) → ResticSpec → Exec W ResticSpec
  unfolding set_cache_option
  set_cache_options vsb m [] o = pure o
  set_cache_options vsb m ((key, val) ∷ rest) o = do
    o' ← set_cache_option vsb m key o
    set_cache_options vsb m rest o'

  unfoldable pub configure_rep_source_restic_vol_options :
      VolumeSnapshotBackup
      → (restic_secret_name : String) → PersistentVolumeClaim
      → Option ConfigMap
      → ServiceAccount
      → RetainPolicy
      → Exec W ResticSpec
  unfolding set_cache_options
  configure_rep_source_restic_vol_options vsb restic_secret_name pvc cm sa rpolicy = do
    o ← set_cache_options vsb (config_data cm) (config_data cm) (bare_spec restic_secret_name sa)
    retain ← from_result (configure_rep_source_snapshot_retain_policy rpolicy)
    pure (record o {
      volume_options = some (configure_rep_source_vol_options vsb pvc cm);
      retain = some retain;
    })
