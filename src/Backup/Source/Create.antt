-- ===== src/Backup/Source/Create.antt =====
-- CreateReplicationSource, buildReplicationSource and getReplicationSourceSpec of
-- controllers/replicationsource.go
use volume_snapshot_mover.Prelude.{
  String, Bool, true, false, Option, none, some, StringMap, text_at, concat, ◌==◌, if◌then◌else◌,
}
use volume_snapshot_mover.Secret.Keys.{
  vsb_label, restic_custom_ca, restic_prune_interval, snapshot_schedule_cron,
  snapshot_retain_policy_hourly, snapshot_retain_policy_daily, snapshot_retain_policy_weekly,
  snapshot_retain_policy_monthly, snapshot_retain_policy_yearly, snapshot_retain_policy_within,
}
use volume_snapshot_mover.Secret.Build.{RetainPolicy, new_meta, entries}
use volume_snapshot_mover.Config.{get_data_mover_config_map, get_velero_service_account}
use volume_snapshot_mover.Api.Meta.{is_zero}
use volume_snapshot_mover.Api.Backup.{VolumeSnapshotBackup}
use volume_snapshot_mover.Api.Cluster.{Secret, PersistentVolumeClaim, ConfigMap, ServiceAccount}
use volume_snapshot_mover.Api.VolSync.{ResticSpec, ReplicationSpec, ReplicationSource}
use volume_snapshot_mover.Exec.{Kind, Exec, pure, deref, from_result, ◌>>=◌, ◌>>◌}
use volume_snapshot_mover.Client.{Client, Reconciler, get_object, create_or_update}
use volume_snapshot_mover.Backup.Fetch.{
  with_open_vsb, in_protected, claim_name, source_name, secret_name,
}
use volume_snapshot_mover.Backup.Source.Retain.{parse_or_zero, nonzero}
use volume_snapshot_mover.Backup.Source.Options.{configure_rep_source_restic_vol_options}

unfoldable pub get_replication_source_spec :
    (vsb_name pvc_name schedule_cron : String) → ResticSpec → ReplicationSpec
get_replication_source_spec vsb_name pvc_name schedule_cron vol_opts =
    if schedule_cron == ""
    then record {
      source_pvc = pvc_name;
      trigger = some (record { manual = concat vsb_name "-trigger"; schedule = none });
      restic = some vol_opts;
    }
    else record {
      source_pvc = pvc_name;
      trigger = some (record { manual = ""; schedule = some schedule_cron });
      restic = some vol_opts;
    }

unfoldable pub policy_of : StringMap String → RetainPolicy
policy_of m = record {
  daily = text_at m snapshot_retain_policy_daily;
  weekly = text_at m snapshot_retain_policy_weekly;
  hourly = text_at m snapshot_retain_policy_hourly;
  monthly = text_at m snapshot_retain_policy_monthly;
  yearly = text_at m snapshot_retain_policy_yearly;
  within = text_at m snapshot_retain_policy_within;
}

abbrev pub no_source : VolumeSnapshotBackup → ReplicationSource
no_source vsb = record {
  meta = new_meta (source_name vsb) vsb.spec.protected_namespace vsb_label vsb.meta.name;
  spec = record { source_pvc = ""; trigger = none; restic = none };
  status = none;
}

-- `replicationSource.Spec.Restic.CustomCA` is written through a pointer that may be nil.
unfoldable pub pass_custom_ca : {W : Type 0} → Secret → ReplicationSpec → Exec W ReplicationSpec
pass_custom_ca restic_secret spec =
    if text_at (entries restic_secret.data_of) restic_custom_ca == "" then pure spec else (do
      restic ← deref spec.restic
      pure (record spec {
        restic = some (record restic {
          custom_ca = record { secret_name = restic_secret.meta.name; key = restic_custom_ca };
        });
      }))

module _ {W : Type 0} (c : Client W) (r : Reconciler) where
  unfoldable pub build_replication_source :
      VolumeSnapshotBackup
      → PersistentVolumeClaim
      → Option ConfigMap
      → ServiceAccount
      → ReplicationSource
      → Exec W ReplicationSource
  unfolding get_replication_source_spec policy_of pass_custom_ca
  build_replication_source vsb pvc cm sa replication_source = do
    restic_secret ← get_object Kind.secret c.secrets (in_protected vsb (secret_name vsb))
    let given = entries restic_secret.data_of
    prune ← from_result (parse_or_zero (text_at given restic_prune_interval))
    vol_options ←
        configure_rep_source_restic_vol_options c vsb restic_secret.meta.name pvc cm sa
          (policy_of given)
    let spec =
        get_replication_source_spec vsb.meta.name pvc.meta.name
          (text_at given snapshot_schedule_cron)
          (record vol_options { prune_interval_days = nonzero prune })
    built ← pass_custom_ca restic_secret (
        if is_zero replication_source.meta.creation_timestamp
        then spec
        else replication_source.spec)
    pure (record replication_source { spec = built })

  unfoldable pub create_replication_source : Exec W Bool
  unfolding build_replication_source
  create_replication_source = with_open_vsb c r λ vsb. do
    cloned_pvc ←
        get_object Kind.persistent_volume_claim c.claims (in_protected vsb (claim_name vsb))
    if vsb.status.source_pvc_data.name == "" then pure false else (do
      cm ←
          get_data_mover_config_map c vsb.spec.protected_namespace
            vsb.status.source_pvc_data.storage_class_name
      velero_sa ← get_velero_service_account c vsb.spec.protected_namespace
      create_or_update Kind.replication_source c.replication_sources
          (in_protected vsb (source_name vsb)) (no_source vsb)
          (build_replication_source vsb cloned_pvc cm velero_sa)
      pure true)
