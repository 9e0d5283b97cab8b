-- ===== src/Examples/Server.antt =====
-- The theorems on passes, on the two queues together and on a server that answers, applied to the
-- small cluster.
use volume_snapshot_mover.Prelude.{true, false, ◌≡◌, refl, none, some, List, [], ◌∷◌}
use volume_snapshot_mover.Prelude.Int.{pos, decr}
use volume_snapshot_mover.Api.Backup.{VolumeSnapshotBackup, VolumeSnapshotBackupBatchingStatus}
use volume_snapshot_mover.Api.VolSync.{ReplicationSource, ReplicationStatus}
use volume_snapshot_mover.Exec.{Error, State, ok, err}
use volume_snapshot_mover.Client.{Client}
use volume_snapshot_mover.Manager.Fixed.{serve_all-fixed}
use volume_snapshot_mover.Backup.Server.Released.{handle_vsb-twice}
use volume_snapshot_mover.Restore.Handed.{restore_waits, Handed, set_vsr_queue-Handed}
use volume_snapshot_mover.Restore.Deleted.{handle_vsr-again}
use volume_snapshot_mover.Restore.Server.{ServesRestores}
use volume_snapshot_mover.Restore.Server.Deleted.{RestoreRemoved, reconcile_restore-Removed}
use volume_snapshot_mover.Batch.Run.{reconcile_batch}
use volume_snapshot_mover.Batch.Queue.{set_vsb_queue, set_vsr_queue}
use volume_snapshot_mover.Batch.Slots.{Reach}
use volume_snapshot_mover.Batch.Slots.Reached.{vsb_slots, vsr_slots}
use volume_snapshot_mover.Ctrl.Ends.{Ends, run-Ends}
use volume_snapshot_mover.Manager.Requests.{Request, serve_all}
use volume_snapshot_mover.Manager.Slots.{serve_all-Reach}
use volume_snapshot_mover.Backup.Places.{waits, is_answer}
use volume_snapshot_mover.Backup.Source.Create.{no_source}
use volume_snapshot_mover.Backup.Status.{finish_vol_sync, set_vsb_status}
use volume_snapshot_mover.Restore.Status.{set_vsr_status}
use volume_snapshot_mover.Backup.Reconcile.{backup_steps, run_backup, handle_vsb, reconcile}
use volume_snapshot_mover.Backup.Server.{Serves}
use volume_snapshot_mover.Backup.Server.Deleted.{Removed, reconcile-Removed}
use volume_snapshot_mover.Backup.Server.Handover.{finish-admits}
use volume_snapshot_mover.Restore.Reconcile.{
  restore_steps, run_restore, handle_vsr, reconcile_restore,
}
use volume_snapshot_mover.Api.Restore.{VolumeSnapshotRestore, VolumeSnapshotRestoreBatchingStatus}
use volume_snapshot_mover.Examples.Cluster.{
  one_restore, restore_cluster, cluster, locking, key, worker, start, busy, no_data,
}

cluster-Serves : Serves false cluster
cluster-Serves = record {
  fetched = λ k w. refl;
  recorded = λ v w. refl;
  deleted = λ k label value ns w. refl;
  timed = λ w. refl;
}

abbrev numbered : State VolumeSnapshotBackup
numbered = record start { vsb_batch_number = pos 2; vsr_batch_number = pos 1 }

serve_all-fixed_example :
    (serve_all restore_cluster (Request.restore key ∷ []) numbered).vsb_batch_number
      ≡ numbered.vsb_batch_number
    × (serve_all restore_cluster (Request.restore key ∷ []) numbered).vsr_batch_number
      ≡ numbered.vsr_batch_number
serve_all-fixed_example =
    serve_all-fixed restore_cluster (Request.restore key ∷ []) numbered refl refl

abbrev requests : List Request
requests = Request.backup key ∷ Request.restore key ∷ Request.backup key ∷ []

serve_all-Reach_example :
    Reach (vsb_slots start) (vsb_slots (serve_all restore_cluster requests start))
    × Reach (vsr_slots start) (vsr_slots (serve_all restore_cluster requests start))
serve_all-Reach_example = serve_all-Reach restore_cluster requests start

run-Ends_example :
    Ends
      (reconcile_batch (backup_steps cluster worker) busy).0
      (set_vsb_status cluster worker)
      (run_backup cluster worker no_data busy).0
    × Ends
        (reconcile_batch (restore_steps cluster worker) busy).0
        (set_vsr_status cluster worker)
        (run_restore cluster worker one_restore busy).0
run-Ends_example = run-Ends cluster worker no_data one_restore busy

abbrev deleted_backup : VolumeSnapshotBackup
deleted_backup = record no_data { meta = record (no_data.meta) { deletion_timestamp = some 5 } }

abbrev deleted_run : State VolumeSnapshotBackup
deleted_run = record busy { world = deleted_backup }

locking-Serves : Serves false locking
locking-Serves = record {
  fetched = λ k w. refl;
  recorded = λ v w. refl;
  deleted = λ k label value ns w. refl;
  timed = λ w. refl;
}

reconcile-Removed_example : Removed locking deleted_backup (reconcile locking key deleted_run)
reconcile-Removed_example =
    reconcile-Removed locking-Serves key deleted_run deleted_backup refl refl refl refl refl

abbrev deleted_restore : VolumeSnapshotRestore
deleted_restore = record one_restore {
  meta = record (one_restore.meta) { deletion_timestamp = some 5 };
}

abbrev restoring : State VolumeSnapshotBackup
restoring = record start { vsr_batch_number = pos 1 }

abbrev deleting : Client VolumeSnapshotBackup
deleting = record restore_cluster {
  vsrs = record (restore_cluster.vsrs) { read = λ key w. (ok deleted_restore, w) };
  vsr_update = λ v w. (err (Error.message "Conflict"), w);
}

deleting-Serves : ServesRestores deleting
deleting-Serves = record {
  fetched = λ k w. refl;
  recorded = λ v w. refl;
  deleted = λ k label value ns w. refl;
}

reconcile_restore-Removed_example :
    RestoreRemoved deleting deleted_restore.meta (reconcile_restore deleting key restoring)
reconcile_restore-Removed_example =
    reconcile_restore-Removed deleting-Serves key restoring deleted_restore refl refl refl refl refl

abbrev held_restore : VolumeSnapshotRestore
held_restore = record deleted_restore {
  status = record (deleted_restore.status) {
    batching_status = VolumeSnapshotRestoreBatchingStatus.processing;
  };
}

handle_vsr-again_example :
    (handle_vsr deleting worker deleted_restore restoring).1.processing_vsrs
      ≡ restoring.processing_vsrs
    × (handle_vsr deleting worker held_restore
        (handle_vsr deleting worker deleted_restore restoring).1).1.processing_vsrs
      ≡ decr restoring.processing_vsrs
unfolding restore_waits
handle_vsr-again_example =
    handle_vsr-again deleting worker deleted_restore held_restore restoring refl refl refl refl refl

set_vsr_queue-Handed_example :
    Handed restore_cluster worker one_restore restoring
      (set_vsr_queue restore_cluster worker one_restore restoring)
set_vsr_queue-Handed_example = set_vsr_queue-Handed restore_cluster worker one_restore restoring

abbrev held_backup : VolumeSnapshotBackup
held_backup = record deleted_backup {
  status = record (deleted_backup.status) {
    batching_status = VolumeSnapshotBackupBatchingStatus.processing;
  };
}

abbrev held_run : State VolumeSnapshotBackup
held_run = record busy { world = held_backup }

handle_vsb-twice_example :
    (handle_vsb locking worker held_backup
      (handle_vsb locking worker held_backup held_run).1).1.processing_vsbs
    ≡ decr (decr held_run.processing_vsbs)
handle_vsb-twice_example =
    handle_vsb-twice locking worker held_backup held_backup held_run refl refl refl refl refl refl

abbrev full : State VolumeSnapshotBackup
full = record start { processing_vsbs = pos 2; vsb_batch_number = pos 2 }

abbrev queued_backup : VolumeSnapshotBackup
queued_backup = record no_data {
  status = record (no_data.status) { batching_status = VolumeSnapshotBackupBatchingStatus.queued };
}

abbrev synced : ReplicationStatus
synced = record {
  last_sync_start_time = some 1;
  last_sync_time = some 2;
  next_sync_time = none;
  last_manual_sync = "vsb-1-trigger";
  latest_image = none;
  conditions = [];
}

abbrev synced_source : ReplicationSource
synced_source = record (no_source no_data) { status = some synced }

finish-admits_example :
    is_answer
        (set_vsb_queue cluster worker queued_backup
          (finish_vol_sync cluster worker synced_source full).1).0
      ≡ true
    × (set_vsb_queue cluster worker queued_backup
        (finish_vol_sync cluster worker synced_source full).1).1.processing_vsbs
      ≡ full.vsb_batch_number
unfolding waits
finish-admits_example =
    finish-admits cluster-Serves worker synced_source synced refl worker queued_backup full refl
      refl
