-- ===== src/Backup/Status.antt =====
-- How the phase of a backup follows its ReplicationSource and its Velero backup: setVSBStatus and
-- updateVSBFromBackup of controllers/common.go, setStatusFromRepSource and isRepSourceCompleted
-- of controllers/replicationsource.go.
use volume_snapshot_mover.Prelude.{
  String, Bool, true, false, not, ◌&&◌, ◌||◌, some, List, [], ◌∷◌, text_at, is_some, ◌==◌,
  if◌then◌else◌,
}
use volume_snapshot_mover.Prelude.Int.{decr}
use volume_snapshot_mover.Secret.Keys.{backup_label}
use volume_snapshot_mover.Api.Meta.{Condition, no_condition, is_true, is_false}
use volume_snapshot_mover.Api.Backup.{
  VolumeSnapshotBackup, VolumeSnapshotBackupPhase, VolumeSnapshotBackupBatchingStatus,
}
use volume_snapshot_mover.Api.Backup.Phase as VsbPhase
use volume_snapshot_mover.Api.Cluster.{VeleroPhase}
use volume_snapshot_mover.Api.VolSync.{ReplicationSource, ReplicationStatus, Trigger}
use volume_snapshot_mover.Exec.{
  Error, Kind, Exec, pure, fail, deref, ◌>>=◌, ◌>>◌, if_nil, or_missing, get_state,
  set_processing_vsbs,
}
use volume_snapshot_mover.Client.{Client, Reconciler, get_object, update_vsb_status, now}
use volume_snapshot_mover.Batch.Queue.{update_vsb_batching_status}
use volume_snapshot_mover.Backup.Fetch.{
  with_vsb, in_protected, source_name, update_vsb_status_phase,
}

abbrev pub has_failed : VeleroPhase → Bool
has_failed VeleroPhase.failed = true
has_failed VeleroPhase.partially_failed = true
has_failed VeleroPhase.other = false

-- The conditions that the loop of setStatusFromRepSource keeps: the last of each kind.
unfoldable pub last_false : List Condition → Condition → Condition
last_false [] kept = kept
last_false (condition ∷ cs) kept =
    last_false cs (if is_false condition.status then condition else kept)

unfoldable pub last_with_reason : String → List Condition → Condition → Condition
last_with_reason reason [] kept = kept
last_with_reason reason (condition ∷ cs) kept =
    last_with_reason reason cs (if condition.reason == reason then condition else kept)

-- The tests of isRepSourceCompleted on a status.
unfoldable pub sync_is_done : ReplicationStatus → Trigger → Bool
sync_is_done status trigger =
    if not (status.last_manual_sync == "")
      && not (trigger.manual == "")
      && status.last_manual_sync == trigger.manual
    then true
    else is_some trigger.schedule && is_some status.next_sync_time && is_some status.last_sync_time

module _ {W : Type 0} (c : Client W) where
  -- Where the Velero backup failed the object is marked, and the step ends in an error.
  unfoldable pub update_vsb_from_backup : VolumeSnapshotBackup → Exec W VolumeSnapshotBackup
  update_vsb_from_backup vsb = do
    backup ←
        get_object Kind.velero_backup c.velero_backups
          (in_protected vsb (text_at vsb.meta.labels backup_label))
    if has_failed backup.phase
        then (do
          t ← now c
          update_vsb_status c (record vsb {
            status = record (vsb.status) {
              phase = VolumeSnapshotBackupPhase.partially_failed;
              completion_timestamp = some t;
            };
          })
          fail (Error.message "backup failed. Marking volumeSnapshotBackup as partiallyFailed"))
        else pure vsb

  unfoldable pub is_rep_source_completed : VolumeSnapshotBackup → Exec W Bool
  unfolding sync_is_done
  is_rep_source_completed vsb = do
    rep_source ←
        get_object Kind.replication_source c.replication_sources
          (in_protected vsb (source_name vsb))
    if_nil rep_source.status (pure false)
        λ status. do trigger ← deref rep_source.spec.trigger; pure (sync_is_done status trigger)

-- The first test of setStatusFromRepSource: manual or scheduled, done and not yet completed.
unfoldable pub marks_done :
    (synchronizing : String) → Trigger → Bool → Condition → VolumeSnapshotBackupPhase → Bool
marks_done synchronizing trigger done finished phase =
    (not (trigger.manual == "")
      && done
      && finished.kind == synchronizing
      && not (VsbPhase.is_completed phase))
    || (is_some trigger.schedule && done && not (VsbPhase.is_completed phase))

module _ {W : Type 0} (c : Client W) (r : Reconciler) where
  -- Batching status, phase and counter of a backup whose data has been moved.
  unfoldable pub finish_vol_sync : ReplicationSource → Exec W Bool
  finish_vol_sync rep_source = do
    update_vsb_batching_status c r VolumeSnapshotBackupBatchingStatus.completed
    update_vsb_status_phase c r (some rep_source) VolumeSnapshotBackupPhase.vol_sync_completed
    s ← get_state
    set_processing_vsbs (decr s.processing_vsbs)
    pure true

  unfoldable pub mark_in_progress : VolumeSnapshotBackup → ReplicationStatus → Exec W Bool
  mark_in_progress vsb status = do
    update_vsb_status c (record vsb {
      status = record (vsb.status) {
        phase = VolumeSnapshotBackupPhase.in_progress;
        replication_source_data = record (vsb.status.replication_source_data) {
          start_timestamp = status.last_sync_start_time;
        };
      };
    })
    pure false

  unfoldable pub mark_failed : VolumeSnapshotBackup → Exec W Bool
  mark_failed vsb = do
    t ← now c
    update_vsb_status c (record vsb {
      status = record (vsb.status) {
        phase = VolumeSnapshotBackupPhase.failed;
        completion_timestamp = some t;
      };
    })
    pure false

  -- `vsb.Status.ReplicationSourceData.Name` is set where it is empty.
  unfoldable pub name_source : VolumeSnapshotBackup → ReplicationSource → VolumeSnapshotBackup
  name_source vsb rep_source =
      if vsb.status.replication_source_data.name == ""
      then record vsb {
        status = record (vsb.status) {
          replication_source_data = record (vsb.status.replication_source_data) {
            name = rep_source.meta.name;
          };
        };
      }
      else vsb

  unfoldable pub set_status_from_rep_source : VolumeSnapshotBackup → ReplicationSource → Exec W Bool
  unfolding last_false last_with_reason name_source marks_done finish_vol_sync mark_in_progress
      mark_failed
  set_status_from_rep_source given rep_source = do
    let vsb = name_source given rep_source
    done ← is_rep_source_completed c vsb
    status ← deref rep_source.status
    let finished = last_false status.conditions no_condition
    let progress = last_with_reason c.synchronizing_reason_sync status.conditions no_condition
    trigger ← deref rep_source.spec.trigger
    if marks_done c.condition_synchronizing trigger done finished vsb.status.phase
        then finish_vol_sync rep_source
        else if not done && is_true progress.status
        then mark_in_progress vsb status
        else if progress.reason == c.synchronizing_reason_error
        then mark_failed vsb
        else pure false

  -- Whatever setStatusFromRepSource returns, setVSBStatus ends with `false` after it.
  unfoldable pub set_vsb_status : Exec W Bool
  unfolding update_vsb_from_backup set_status_from_rep_source
  set_vsb_status = with_vsb c r λ fetched. do
    vsb ← update_vsb_from_backup c fetched
    if VsbPhase.is_failed vsb.status.phase || VsbPhase.is_partially_failed vsb.status.phase
        then fail (Error.message "vsb failed to complete")
        else or_missing
            (get_object Kind.replication_source c.replication_sources
              (in_protected vsb (source_name vsb)))
            (pure false)
            (λ rep_source.
              if not (is_some rep_source.status)
              then pure false
              else if VsbPhase.is_vol_sync_completed vsb.status.phase
              then pure true
              else (do set_status_from_rep_source vsb rep_source; pure false))
