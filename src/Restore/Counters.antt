-- ===== src/Restore/Counters.antt =====
-- The parts of the restore controller that do more than plain requests: the clean-up keeps what no
-- request breaks; the queue, the batch number, the release of a place and the status step keep
-- what the restores' counters leave alone.
use volume_snapshot_mover.Prelude.{String, List, [], ◌∷◌}
use volume_snapshot_mover.Prelude.Int.{ℤ}
use volume_snapshot_mover.Go.Strconv.{atoi}
use volume_snapshot_mover.Api.Restore.{VolumeSnapshotRestore}
use volume_snapshot_mover.Api.VolSync.{ReplicationDestination, ReplicationStatus}
use volume_snapshot_mover.Exec.{Kind, State, set_processing_vsrs, set_vsr_batch_number}
use volume_snapshot_mover.Exec.Keeps.{Keeps, Keeps-pure, Keeps-bind, keeps_rules}
use volume_snapshot_mover.Exec.Stable.{Stable, get_object-Keeps, update_vsr_status-Keeps}
use volume_snapshot_mover.Exec.Silent.{Silent, Stable-of_Silent, delete_all_of-Keeps}
use volume_snapshot_mover.Client.{Client, Reconciler}
use volume_snapshot_mover.Batch.Queue.{set_vsr_queue}
use volume_snapshot_mover.Batch.Keeps.{vsr_batching-Keeps, restore_value-Keeps}
use volume_snapshot_mover.Restore.Fetch.{with_vsr}
use volume_snapshot_mover.Restore.Status.{
  finish_restore_sync, set_status_from_rep_dest, set_vsr_status,
}
use volume_snapshot_mover.Restore.Cleanup.{
  delete_restore_kinds, finish_restore_cleanup, remove_restore_resources, clean_restore_resources,
}
use volume_snapshot_mover.Restore.Reconcile.{
  store_vsr_batch_number, load_vsr_batch_number, release_restore_place,
}
use volume_snapshot_mover.Restore.Stable.{
  get_vsr-Keeps, vsr_phase-Keeps, from_restore-Keeps, follow-Keeps,
}

module _ {W : Type 0} {P : State W → Type 0} (si : Silent P) (c : Client W) where
  delete_kinds-Keeps :
      (v : VolumeSnapshotRestore) (kinds : List Kind) → Keeps P (delete_restore_kinds c v kinds)
  unfolding delete_restore_kinds
  delete_kinds-Keeps v [] = Keeps-pure tt
  delete_kinds-Keeps v (k ∷ kinds) =
      Keeps-bind _ _ (delete_all_of-Keeps si c k _ _ _) (λ _. delete_kinds-Keeps v kinds)

  pub clean_restore-Keeps : (r : Reconciler) → Keeps P (clean_restore_resources c r)
  unfolding clean_restore_resources remove_restore_resources finish_restore_cleanup
  clean_restore-Keeps r =
      search
        (
          Stable-of_Silent si,
          keeps_rules,
          get_vsr-Keeps,
          update_vsr_status-Keeps,
          delete_kinds-Keeps,
        )
        depth 16

pub record RestoreCounterFree {W : Type 0} (P : State W → Type 0) : Type 0 where
  pub counted : (n : ℤ) (s : State W) → P s → P (record s { processing_vsrs = n })
  pub batched :
      (v : String) (s : State W) → P s → P (record s { vsr_batch_number = (atoi v).value })

module _ {W : Type 0} {P : State W → Type 0} (cf : RestoreCounterFree P) where
  count-Keeps : (n : ℤ) → Keeps P (set_processing_vsrs n)
  unfolding set_processing_vsrs
  count-Keeps n = record { at = cf.counted n }

  batch_number-Keeps : (v : String) → Keeps P (set_vsr_batch_number (atoi v).value)
  unfolding set_vsr_batch_number
  batch_number-Keeps v = record { at = cf.batched v }

ruleset counter_rules = (
  keeps_rules, count-Keeps, batch_number-Keeps, get_vsr-Keeps, vsr_phase-Keeps, vsr_batching-Keeps,
  from_restore-Keeps, follow-Keeps, get_object-Keeps, restore_value-Keeps,
)

module _ {W : Type 0} {P : State W → Type 0} (st : Stable P) (cf : RestoreCounterFree P)
    (c : Client W) where
  pub restore_queue-Keeps :
      (r : Reconciler) (v : VolumeSnapshotRestore) → Keeps P (set_vsr_queue c r v)
  unfolding set_vsr_queue
  restore_queue-Keeps r v = search counter_rules depth 16

  set_status-Keeps :
      (r : Reconciler) (v : VolumeSnapshotRestore) (d : ReplicationDestination)
      (s : ReplicationStatus)
      → Keeps P (set_status_from_rep_dest c r v d s)
  unfolding set_status_from_rep_dest finish_restore_sync
  set_status-Keeps r v d s = search counter_rules depth 20

  pub restore_status-Keeps : (r : Reconciler) → Keeps P (set_vsr_status c r)
  unfolding set_vsr_status with_vsr
  restore_status-Keeps r = search (counter_rules, set_status-Keeps) depth 16

  pub restore_release-Keeps :
      (v : VolumeSnapshotRestore) → Keeps P (release_restore_place {W = W} v)
  unfolding release_restore_place
  restore_release-Keeps v = search counter_rules

  pub restore_load-Keeps : (v : VolumeSnapshotRestore) → Keeps P (load_vsr_batch_number c v)
  unfolding load_vsr_batch_number store_vsr_batch_number
  restore_load-Keeps v = search counter_rules depth 16
