-- ===== src/Examples/Runs.antt =====
-- The theorems on runs, applied to the small cluster.
use volume_snapshot_mover.Prelude.{
  none, some, ◌≡◌, true, ◌&&◌, [], ◌∷◌, arith, if◌then◌else◌, List, refl,
}
use volume_snapshot_mover.Prelude.Int.{pos, incr, ltb_ℤ}
use volume_snapshot_mover.Exec.{pure, fail, Error}
use volume_snapshot_mover.Exec.Answers.{Answers}
use volume_snapshot_mover.Batch.Queue.{update_vsb_batching_status, set_vsb_queue}
use volume_snapshot_mover.Batch.Run.{ReconcileFunc, reconcile_batch}
use volume_snapshot_mover.Batch.Order.{Stops, reconcile_batch-Stops}
use volume_snapshot_mover.Backup.Snapshots.{wait_for_cloned_volume_snapshot_content_to_be_ready}
use volume_snapshot_mover.Backup.Cleanup.{are_vsb_resources_deleted}
use volume_snapshot_mover.Backup.Limit.{InLimit}
use volume_snapshot_mover.Backup.Limit.Refines.{reconcile_all}
use volume_snapshot_mover.Backup.Limit.Reconcile.{reconcile_all-InLimit}
use volume_snapshot_mover.Backup.Guard.{Guarded, IsGuarded}
use volume_snapshot_mover.Backup.Guard.Reconcile.{reconcile_all-IsGuarded}
use volume_snapshot_mover.Backup.Places.{waits, is_answer, set_vsb_queue-counts}
use volume_snapshot_mover.Backup.Waits.{IsTrue, waits-IsTrue}
use volume_snapshot_mover.Api.Meta.{ConditionStatus}
use volume_snapshot_mover.Api.Backup.{
  VolumeSnapshotBackup, VolumeSnapshotBackupPhase, VolumeSnapshotBackupBatchingStatus,
}
use volume_snapshot_mover.Api.Restore.{VolumeSnapshotRestore, VolumeSnapshotRestorePhase}
use volume_snapshot_mover.Exec.{ok, Kind, State, Call}
use volume_snapshot_mover.Ctrl.{stop}
use volume_snapshot_mover.Client.{Client}
use volume_snapshot_mover.Backup.Status.{set_status_from_rep_source}
use volume_snapshot_mover.Backup.Progress.{
  status_without_failure, set_status_from_rep_source-without_failure,
}
use volume_snapshot_mover.Api.VolSync.{ReplicationSource}
use volume_snapshot_mover.Backup.Source.Create.{no_source}
use volume_snapshot_mover.Backup.Reconcile.{reconcile}
use volume_snapshot_mover.Backup.Settled.{Ended, reconcile-settled}
use volume_snapshot_mover.Restore.Reconcile.{reconcile_restore}
use volume_snapshot_mover.Restore.Settled.{RestoreEnded, reconcile_restore-settled}
use volume_snapshot_mover.Restore.Guard.{RestoreGuarded, IsRestoreGuarded}
use volume_snapshot_mover.Restore.Guard.Reconcile.{reconcile_restores-IsRestoreGuarded}
use volume_snapshot_mover.Restore.Limit.{InRestoreLimit}
use volume_snapshot_mover.Restore.Limit.Refines.{reconcile_restores}
use volume_snapshot_mover.Restore.Limit.Reconcile.{reconcile_restores-InRestoreLimit}
use volume_snapshot_mover.Examples.Cluster.{
  one_restore, restore_cluster, cluster, key, worker, start, busy, no_data,
}

start-InLimit : InLimit start
start-InLimit = record { within = omega arith }

reconcile_all-InLimit_example : InLimit (reconcile_all cluster (key ∷ key ∷ []) start)
reconcile_all-InLimit_example = reconcile_all-InLimit cluster (key ∷ key ∷ []) start start-InLimit

reconcile_all-IsGuarded_example : IsGuarded (reconcile_all cluster (key ∷ key ∷ []) start)
reconcile_all-IsGuarded_example =
    reconcile_all-IsGuarded cluster (key ∷ key ∷ []) start (record { guarded = Guarded.empty })

set_vsb_queue-counts_example : (set_vsb_queue cluster worker no_data busy).1.processing_vsbs ≡ (
    if ltb_ℤ busy.processing_vsbs busy.vsb_batch_number
      && waits no_data
      && is_answer
          (update_vsb_batching_status cluster worker VolumeSnapshotBackupBatchingStatus.processing
            busy).0
    then incr busy.processing_vsbs
    else busy.processing_vsbs)
set_vsb_queue-counts_example = set_vsb_queue-counts cluster worker no_data busy

abbrev failing : List (ReconcileFunc VolumeSnapshotBackup)
failing = pure true ∷ fail Error.not_found ∷ pure true ∷ []

reconcile_batch-Stops_example : Stops failing start (reconcile_batch failing start)
reconcile_batch-Stops_example = reconcile_batch-Stops failing start

abbrev moved_backup : VolumeSnapshotBackup
moved_backup = record no_data {
  status = record (no_data.status) { phase = VolumeSnapshotBackupPhase.vol_sync_completed };
}

abbrev moved_run : State VolumeSnapshotBackup
moved_run = record busy { world = moved_backup }

waits-IsTrue_example :
    Answers IsTrue (wait_for_cloned_volume_snapshot_content_to_be_ready cluster worker)
    × Answers IsTrue (are_vsb_resources_deleted cluster no_data)
waits-IsTrue_example = waits-IsTrue cluster worker no_data

reconcile_restores-InRestoreLimit_example :
    InRestoreLimit (reconcile_restores restore_cluster (key ∷ key ∷ []) start)
reconcile_restores-InRestoreLimit_example =
    reconcile_restores-InRestoreLimit restore_cluster (key ∷ key ∷ []) start
      (record { within = omega arith })

abbrev failed_backup : VolumeSnapshotBackup
failed_backup = record no_data {
  status = record (no_data.status) { phase = VolumeSnapshotBackupPhase.failed };
}

abbrev failed_run : State VolumeSnapshotBackup
failed_run = record busy { world = failed_backup }

reconcile-settled_example :
    reconcile cluster key failed_run
    ≡ (ok stop, record failed_run { calls = Call.get Kind.volume_snapshot_backup key ∷ [] })
reconcile-settled_example =
    reconcile-settled cluster key failed_run failed_backup refl Ended.failed refl refl

abbrev failed_restore : VolumeSnapshotRestore
failed_restore = record one_restore {
  status = record (one_restore.status) { phase = VolumeSnapshotRestorePhase.failed };
}

abbrev failed_restores : Client VolumeSnapshotBackup
failed_restores = record restore_cluster {
  vsrs = record (restore_cluster.vsrs) { read = λ key w. (ok failed_restore, w) };
}

abbrev busy_restores : State VolumeSnapshotBackup
busy_restores = record start { processing_vsrs = pos 1; vsr_batch_number = pos 1 }

reconcile_restore-settled_example :
    reconcile_restore failed_restores key busy_restores
    ≡ (ok stop, record busy_restores { calls = Call.get Kind.volume_snapshot_restore key ∷ [] })
reconcile_restore-settled_example =
    reconcile_restore-settled failed_restores key busy_restores failed_restore refl
      RestoreEnded.failed refl refl

abbrev synced_with_error : ReplicationSource
synced_with_error = record (no_source no_data) {
  spec = record ((no_source no_data).spec) {
    trigger = some (record { manual = "vsb-1-trigger"; schedule = none });
  };
  status = some (record {
    last_sync_start_time = some 1;
    last_sync_time = none;
    next_sync_time = none;
    last_manual_sync = "";
    latest_image = none;
    conditions =
        record {
          kind = "Synchronizing";
          status = ConditionStatus.cond_false;
          reason = "Error";
          message = "no";
        }
        ∷ [];
  });
}

set_status_from_rep_source-without_failure_example :
    set_status_from_rep_source cluster worker no_data synced_with_error busy
    ≡ status_without_failure cluster worker no_data synced_with_error busy
set_status_from_rep_source-without_failure_example =
    set_status_from_rep_source-without_failure cluster worker no_data synced_with_error busy refl
      refl

reconcile_restores-IsRestoreGuarded_example :
    IsRestoreGuarded (reconcile_restores restore_cluster (key ∷ key ∷ []) start)
reconcile_restores-IsRestoreGuarded_example =
    reconcile_restores-IsRestoreGuarded restore_cluster (key ∷ key ∷ []) start
      (record { guarded = RestoreGuarded.empty })
