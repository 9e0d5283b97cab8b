-- ===== src/Backup/Cleanup.antt =====
-- The backup's functions of controllers/cleanup.go
use volume_snapshot_mover.Prelude.{
  Bool, true, false, not, ◌&&◌, ◌||◌, List, [], ◌∷◌, text_at, ◌==◌, if◌then◌else◌,
}
use volume_snapshot_mover.Secret.Keys.{
  vsb_label, snapshot_schedule_cron, snapshot_retain_policy_hourly, snapshot_retain_policy_daily,
  snapshot_retain_policy_weekly, snapshot_retain_policy_monthly, snapshot_retain_policy_yearly,
  snapshot_retain_policy_within,
}
use volume_snapshot_mover.Secret.Build.{entries}
use volume_snapshot_mover.Api.Meta.{is_zero}
use volume_snapshot_mover.Api.Backup.{VolumeSnapshotBackup, VolumeSnapshotBackupPhase}
use volume_snapshot_mover.Api.Backup.Phase as VsbPhase
use volume_snapshot_mover.Exec.{Kind, Exec, pure, ◌>>=◌, ◌>>◌}
use volume_snapshot_mover.Client.{Client, Reconciler, get_object, update_vsb_status, delete_all_of}
use volume_snapshot_mover.Backup.Fetch.{
  get_vsb, in_protected, cluster_wide, clone_name, claim_name, source_name, secret_name, pod_name,
}

-- cleanupVSBTypes
abbrev pub cleanup_vsb_types : List Kind
cleanup_vsb_types =
    Kind.replication_source ∷ Kind.persistent_volume_claim ∷ Kind.pod ∷ Kind.volume_snapshot
    ∷ Kind.volume_snapshot_content ∷ Kind.secret ∷ []

-- The guard of the clean-up: VolSync is done, the backup failed, or the object is being deleted.
unfoldable pub may_clean_backup : VolumeSnapshotBackup → Bool
may_clean_backup vsb =
    VsbPhase.is_vol_sync_completed vsb.status.phase
    || VsbPhase.is_failed vsb.status.phase
    || VsbPhase.is_partially_failed vsb.status.phase
    || not (is_zero vsb.meta.deletion_timestamp)

abbrev pub with_phase : VolumeSnapshotBackup → VolumeSnapshotBackupPhase → VolumeSnapshotBackup
with_phase vsb phase = record vsb { status = record (vsb.status) { phase = phase } }

module _ {W : Type 0} (c : Client W) where
  -- `for _, obj := range cleanupVSBTypes { r.DeleteAllOf(…) }`
  unfoldable pub delete_backup_kinds : VolumeSnapshotBackup → List Kind → Exec W Unit
  delete_backup_kinds vsb [] = pure tt
  delete_backup_kinds vsb (obj ∷ kinds) = do
    delete_all_of c obj vsb_label vsb.meta.name vsb.spec.protected_namespace
    delete_backup_kinds vsb kinds

  unfoldable pub is_retain_policy_set : VolumeSnapshotBackup → Exec W Bool
  is_retain_policy_set vsb = do
    restic_secret ← get_object Kind.secret c.secrets (in_protected vsb (secret_name vsb))
    let given = entries restic_secret.data_of
    pure (
        (not (text_at given snapshot_retain_policy_daily == "")
          || not (text_at given snapshot_retain_policy_hourly == "")
          || not (text_at given snapshot_retain_policy_weekly == "")
          || not (text_at given snapshot_retain_policy_monthly == "")
          || not (text_at given snapshot_retain_policy_yearly == ""))
        && not (text_at given snapshot_retain_policy_within == ""))

  unfoldable pub schedule_cron_trigger_set : VolumeSnapshotBackup → Exec W Bool
  schedule_cron_trigger_set vsb = do
    restic_secret ← get_object Kind.secret c.secrets (in_protected vsb (secret_name vsb))
    pure (not (text_at (entries restic_secret.data_of) snapshot_schedule_cron == ""))

  -- Every error of a fetch is returned, `not found` too. The clone of the VolumeSnapshot is looked
  -- up as a VolumeSnapshotContent.
  unfoldable pub are_vsb_resources_deleted : VolumeSnapshotBackup → Exec W Bool
  are_vsb_resources_deleted vsb = do
    get_object Kind.persistent_volume_claim c.claims (in_protected vsb (claim_name vsb))
    get_object Kind.pod c.pods (in_protected vsb (pod_name vsb))
    vsc_clone ←
        get_object Kind.volume_snapshot_content c.volume_snapshot_contents
          (cluster_wide (clone_name vsb))
    get_object Kind.volume_snapshot_content c.volume_snapshot_contents
        (in_protected vsb vsc_clone.spec.volume_snapshot_ref.name)
    get_object Kind.secret c.secrets (in_protected vsb (secret_name vsb))
    get_object Kind.replication_source c.replication_sources (in_protected vsb (source_name vsb))
    pure true

  -- What is left of a backup whose resources have been deleted.
  unfoldable pub finish_cleanup : VolumeSnapshotBackup → Exec W Bool
  finish_cleanup marked =
      if is_zero marked.meta.deletion_timestamp
      then (do
        update_vsb_status c (with_phase marked VolumeSnapshotBackupPhase.completed)
        pure true)
      else pure true

  -- Behind the guards: the mark, the deletions and the end.
  unfoldable pub remove_backup_resources : VolumeSnapshotBackup → Exec W Bool
  unfolding delete_backup_kinds finish_cleanup
  remove_backup_resources vsb = do
    marked ← update_vsb_status c (with_phase vsb VolumeSnapshotBackupPhase.cleanup)
    delete_backup_kinds vsb cleanup_vsb_types
    finish_cleanup marked

module _ {W : Type 0} (c : Client W) (r : Reconciler) where
  unfoldable pub clean_backup_resources : Exec W Bool
  unfolding may_clean_backup remove_backup_resources
  clean_backup_resources = do
    vsb ← get_vsb c r
    if not (may_clean_backup vsb)
        then pure false
        else if VsbPhase.is_completed vsb.status.phase
        then pure true
        else remove_backup_resources c vsb
