-- ===== src/Restore/Limit/Reconcile.antt =====
-- The whole of the restore's Reconcile keeps the counter of restores within the batch number.
use volume_snapshot_mover.Prelude.{List}
use volume_snapshot_mover.Api.Meta.{NamespacedName}
use volume_snapshot_mover.Exec.{State}
use volume_snapshot_mover.Client.{Client}
use volume_snapshot_mover.Batch.Slots.{Reach-IsWithin}
use volume_snapshot_mover.Restore.Limit.{InRestoreLimit}
use volume_snapshot_mover.Restore.Limit.Refines.{reconcile_restores, reconcile_restores-Reach}

-- Whatever the API server answers, and whatever requests come in what order: if no more restores
-- are counted in processing than the batch number allows, then so it is after every request.
pub reconcile_restores-InRestoreLimit :
    {W : Type 0} (c : Client W) (reqs : List NamespacedName) (s : State W)
    → InRestoreLimit s
    → InRestoreLimit (reconcile_restores c reqs s)
reconcile_restores-InRestoreLimit c reqs s h = record {
  within = Reach-IsWithin _ _ (reconcile_restores-Reach c reqs s) h.within;
}
