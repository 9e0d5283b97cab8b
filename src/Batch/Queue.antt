-- ===== src/Batch/Queue.antt =====
-- setVSBQueue and setVSRQueue of controllers/common.go, with the writes of the batching status
use volume_snapshot_mover.Prelude.{Bool, true, false, ◌&&◌, ◌||◌, if◌then◌else◌}
use volume_snapshot_mover.Prelude.Int.{incr, ltb_ℤ, leb_ℤ}
use volume_snapshot_mover.Api.Backup.{VolumeSnapshotBackup, VolumeSnapshotBackupBatchingStatus}
use volume_snapshot_mover.Api.Backup.Batching as VsbBatching
use volume_snapshot_mover.Api.Restore.{VolumeSnapshotRestore, VolumeSnapshotRestoreBatchingStatus}
use volume_snapshot_mover.Api.Restore.Batching as VsrBatching
use volume_snapshot_mover.Exec.{
  Kind, Exec, pure, ◌>>=◌, ◌>>◌, get_state, set_processing_vsbs, set_processing_vsrs,
}
use volume_snapshot_mover.Client.{
  Client, Reconciler, get_object, update_vsb_status, update_vsr_status,
}

module _ {W : Type 0} (c : Client W) (r : Reconciler) where
  unfoldable pub update_vsb_batching_status : VolumeSnapshotBackupBatchingStatus → Exec W Unit
  update_vsb_batching_status batch_status = do
    vsb ← get_object Kind.volume_snapshot_backup c.vsbs r.req
    update_vsb_status c
        (record vsb { status = record (vsb.status) { batching_status = batch_status } })
    pure tt

  unfoldable pub update_vsr_batching_status : VolumeSnapshotRestoreBatchingStatus → Exec W Unit
  update_vsr_batching_status batch_status = do
    vsr ← get_object Kind.volume_snapshot_restore c.vsrs r.req
    update_vsr_status c
        (record vsr { status = record (vsr.status) { batching_status = batch_status } })
    pure tt

  unfoldable pub set_vsb_queue : VolumeSnapshotBackup → Exec W Bool
  set_vsb_queue vsb = do
    s ← get_state
    let batching = vsb.status.batching_status
    let full = leb_ℤ s.vsb_batch_number s.processing_vsbs
    if full && VsbBatching.is_unset batching
        then (do update_vsb_batching_status VolumeSnapshotBackupBatchingStatus.queued; pure true)
        else if full && VsbBatching.is_queued batching
        then pure false
        else if ltb_ℤ s.processing_vsbs s.vsb_batch_number
            && (VsbBatching.is_unset batching || VsbBatching.is_queued batching)
        then (do
          update_vsb_batching_status VolumeSnapshotBackupBatchingStatus.processing
          t ← get_state
          set_processing_vsbs (incr t.processing_vsbs)
          pure true)
        else pure true

  -- The restore's version also sets the status of the caller's object: the second answer.
  unfoldable pub set_vsr_queue : VolumeSnapshotRestore → Exec W (Bool × VolumeSnapshotRestore)
  set_vsr_queue vsr = do
    s ← get_state
    let batching = vsr.status.batching_status
    let full = leb_ℤ s.vsr_batch_number s.processing_vsrs
    if full && VsrBatching.is_unset batching
        then (do
          update_vsr_batching_status VolumeSnapshotRestoreBatchingStatus.queued
          pure (true, vsr))
        else if full && VsrBatching.is_queued batching
        then pure (false, vsr)
        else if ltb_ℤ s.processing_vsrs s.vsr_batch_number
            && (VsrBatching.is_unset batching || VsrBatching.is_queued batching)
        then (do
          update_vsr_batching_status VolumeSnapshotRestoreBatchingStatus.processing
          t ← get_state
          set_processing_vsrs (incr t.processing_vsrs)
          pure (
            true,
            record vsr {
              status = record (vsr.status) {
                batching_status = VolumeSnapshotRestoreBatchingStatus.processing;
              };
            },
          ))
        else pure (true, vsr)
