-- ===== src/Batch/Keeps.antt =====
-- The writes of a batching status and the reads of a batch number are plain requests.
use volume_snapshot_mover.Prelude.{String}
use volume_snapshot_mover.Api.Backup.{VolumeSnapshotBackupBatchingStatus}
use volume_snapshot_mover.Api.Restore.{VolumeSnapshotRestoreBatchingStatus}
use volume_snapshot_mover.Exec.{State}
use volume_snapshot_mover.Exec.Keeps.{Keeps}
use volume_snapshot_mover.Exec.Stable.{Stable, stable_rules}
use volume_snapshot_mover.Client.{Client, Reconciler}
use volume_snapshot_mover.Batch.Values.{
  get_vsm_container, get_backup_batch_value, get_restore_batch_value,
}
use volume_snapshot_mover.Batch.Queue.{update_vsb_batching_status, update_vsr_batching_status}

module _ {W : Type 0} {P : State W → Type 0} (st : Stable P) (c : Client W) (r : Reconciler) where
  pub update_batching-Keeps :
      (b : VolumeSnapshotBackupBatchingStatus) → Keeps P (update_vsb_batching_status c r b)
  unfolding update_vsb_batching_status
  update_batching-Keeps b = search stable_rules depth 10

  pub vsr_batching-Keeps :
      (b : VolumeSnapshotRestoreBatchingStatus) → Keeps P (update_vsr_batching_status c r b)
  unfolding update_vsr_batching_status
  vsr_batching-Keeps b = search stable_rules depth 12

module _ {W : Type 0} {P : State W → Type 0} (st : Stable P) (c : Client W) where
  pub get_value-Keeps : (ns : String) → Keeps P (get_backup_batch_value c ns)
  unfolding get_backup_batch_value get_vsm_container
  get_value-Keeps ns = search stable_rules depth 12

  pub restore_value-Keeps : (ns : String) → Keeps P (get_restore_batch_value c ns)
  unfolding get_restore_batch_value get_vsm_container
  restore_value-Keeps ns = search stable_rules depth 12
