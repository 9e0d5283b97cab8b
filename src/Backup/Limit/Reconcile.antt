-- ===== src/Backup/Limit/Reconcile.antt =====
-- The whole of Reconcile keeps the counter of backups in processing within the batch number.
use volume_snapshot_mover.Prelude.{List}
use volume_snapshot_mover.Api.Meta.{NamespacedName}
use volume_snapshot_mover.Exec.{State}
use volume_snapshot_mover.Client.{Client}
use volume_snapshot_mover.Batch.Slots.{Reach-IsWithin}
use volume_snapshot_mover.Backup.Limit.{InLimit}
use volume_snapshot_mover.Backup.Limit.Refines.{reconcile_all, reconcile_all-Reach}

-- Whatever the API server answers, and whatever requests come in what order: if no more backups
-- are counted in processing than the batch number allows, then so it is after every request.
pub reconcile_all-InLimit :
    {W : Type 0} (c : Client W) (reqs : List NamespacedName) (s : State W)
    → InLimit s
    → InLimit (reconcile_all c reqs s)
reconcile_all-InLimit c reqs s h = record {
  within = Reach-IsWithin _ _ (reconcile_all-Reach c reqs s) h.within;
}
