-- ===== src/Restore/Status.antt =====
-- How the phase of a restore follows its ReplicationDestination and its Velero restore:
-- updateVSRFromRestore and checkRestoreStatus of controllers/common.go, SetVSRStatus of
-- controllers/replicationdestination.go.
use volume_snapshot_mover.Prelude.{
  Bool, true, false, ◌&&◌, ◌||◌, some, text_at, ◌==◌, if◌then◌else◌,
}
use volume_snapshot_mover.Prelude.Int.{decr}
use volume_snapshot_mover.Secret.Keys.{restore_label}
use volume_snapshot_mover.Api.Meta.{Condition, no_condition, is_true}
use volume_snapshot_mover.Api.Restore.{
  VolumeSnapshotRestore, VolumeSnapshotRestorePhase, VolumeSnapshotRestoreBatchingStatus,
}
use volume_snapshot_mover.Api.Restore.Phase as VsrPhase
use volume_snapshot_mover.Api.VolSync.{ReplicationDestination, ReplicationStatus}
use volume_snapshot_mover.Exec.{
  Error, Kind, Exec, pure, fail, deref, ◌>>=◌, ◌>>◌, if_nil, or_missing, get_state,
  set_processing_vsrs,
}
use volume_snapshot_mover.Client.{Client, Reconciler, get_object, update_vsr_status, now}
use volume_snapshot_mover.Batch.Queue.{update_vsr_batching_status}
use volume_snapshot_mover.Backup.Status.{has_failed, last_with_reason}
use volume_snapshot_mover.Restore.Fetch.{
  with_vsr, vsr_protected, destination_name, update_vsr_status_phase,
}

module _ {W : Type 0} (c : Client W) where
  -- Where the Velero restore failed the object is marked, and the step ends in an error.
  unfoldable pub update_vsr_from_restore : VolumeSnapshotRestore → Exec W VolumeSnapshotRestore
  update_vsr_from_restore vsr = do
    restore ←
        get_object Kind.velero_restore c.velero_restores
          (vsr_protected vsr (text_at vsr.meta.labels restore_label))
    if has_failed restore.phase
        then (do
          t ← now c
          update_vsr_status c (record vsr {
            status = record (vsr.status) {
              phase = VolumeSnapshotRestorePhase.partially_failed;
              completion_timestamp = some t;
            };
          })
          fail (Error.message "restore failed. Marking volumeSnapshotRestore as partiallyFailed"))
        else pure vsr

-- `vsr.Status.ReplicationDestinationData.Name` is set where it is empty.
unfoldable pub name_destination :
    VolumeSnapshotRestore → ReplicationDestination → VolumeSnapshotRestore
name_destination vsr rep_dest =
    if vsr.status.replication_destination_data.name == ""
    then record vsr {
      status = record (vsr.status) {
        replication_destination_data = record (vsr.status.replication_destination_data) {
          name = rep_dest.meta.name;
        };
      };
    }
    else vsr

module _ {W : Type 0} (c : Client W) (r : Reconciler) where
  unfoldable pub check_restore_status : Exec W Bool
  unfolding update_vsr_from_restore
  check_restore_status = with_vsr c r λ vsr. do update_vsr_from_restore c vsr; pure true

  -- Batching status, phase and counter of a restore whose data has been moved.
  unfoldable pub finish_restore_sync : ReplicationDestination → Exec W Bool
  finish_restore_sync rep_dest = do
    update_vsr_batching_status c r VolumeSnapshotRestoreBatchingStatus.completed
    update_vsr_status_phase c r (some rep_dest) VolumeSnapshotRestorePhase.vol_sync_completed
    s ← get_state
    set_processing_vsrs (decr s.processing_vsrs)
    pure true

  -- Without a manual sync to compare.
  unfoldable pub follow_progress :
      VolumeSnapshotRestore → ReplicationStatus → Condition → Exec W Bool
  follow_progress vsr status progress =
      if is_true progress.status && progress.reason == c.synchronizing_reason_sync
      then (do
        update_vsr_status c (record vsr {
          status = record (vsr.status) {
            phase = VolumeSnapshotRestorePhase.in_progress;
            replication_destination_data = record (vsr.status.replication_destination_data) {
              start_timestamp = status.last_sync_start_time;
            };
          };
        })
        pure false)
      else if progress.reason == c.synchronizing_reason_error
      then (do
        t ← now c
        update_vsr_status c (record vsr {
          status = record (vsr.status) {
            phase = VolumeSnapshotRestorePhase.failed;
            completion_timestamp = some t;
          };
        })
        pure false)
      else pure false

  -- The trigger is dereferenced only where there has been a manual sync.
  unfoldable pub set_status_from_rep_dest :
      VolumeSnapshotRestore → ReplicationDestination → ReplicationStatus → Exec W Bool
  unfolding name_destination last_with_reason finish_restore_sync follow_progress
  set_status_from_rep_dest given rep_dest status =
      let vsr = name_destination given rep_dest in
      let progress = last_with_reason c.synchronizing_reason_sync status.conditions no_condition in
      if status.last_manual_sync == "" then follow_progress vsr status progress else (do
        trigger ← deref rep_dest.spec.trigger
        if trigger.manual == ""
            then follow_progress vsr status progress
            else if status.last_manual_sync == trigger.manual
            then finish_restore_sync rep_dest
            else pure false)

  unfoldable pub set_vsr_status : Exec W Bool
  unfolding set_status_from_rep_dest
  set_vsr_status = with_vsr c r λ fetched. do
    vsr ← update_vsr_from_restore c fetched
    if VsrPhase.is_failed vsr.status.phase || VsrPhase.is_partially_failed vsr.status.phase
        then fail (Error.message "vsr failed to complete")
        else if VsrPhase.is_vol_sync_completed vsr.status.phase
        then pure true
        else or_missing
            (get_object Kind.replication_destination c.replication_destinations
              (vsr_protected vsr (destination_name vsr)))
            (pure false)
            (λ rep_dest.
              if_nil rep_dest.status (pure false)
                (λ status. set_status_from_rep_dest vsr rep_dest status))
