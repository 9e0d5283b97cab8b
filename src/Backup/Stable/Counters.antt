-- ===== src/Backup/Stable/Counters.antt =====
-- The parts of the backup controller that do more than plain requests: the clean-up keeps what no
-- request breaks; the queue, the batch number, the release of a place and the status step keep
-- what the backups' counters leave alone.
use volume_snapshot_mover.Prelude.{String, List, [], ◌∷◌}
use volume_snapshot_mover.Prelude.Int.{ℤ}
use volume_snapshot_mover.Go.Strconv.{atoi}
use volume_snapshot_mover.Api.Backup.{VolumeSnapshotBackup}
use volume_snapshot_mover.Api.VolSync.{ReplicationSource}
use volume_snapshot_mover.Exec.{Kind, State, set_processing_vsbs, set_vsb_batch_number}
use volume_snapshot_mover.Exec.Keeps.{Keeps, Keeps-pure, Keeps-bind, keeps_rules}
use volume_snapshot_mover.Exec.Stable.{Stable, get_object-Keeps, update_vsb_status-Keeps}
use volume_snapshot_mover.Exec.Silent.{Silent, Stable-of_Silent, delete_all_of-Keeps}
use volume_snapshot_mover.Client.{Client, Reconciler}
use volume_snapshot_mover.Batch.Queue.{set_vsb_queue}
use volume_snapshot_mover.Batch.Keeps.{update_batching-Keeps, get_value-Keeps}
use volume_snapshot_mover.Backup.Fetch.{with_vsb}
use volume_snapshot_mover.Backup.Status.{
  finish_vol_sync, set_status_from_rep_source, set_vsb_status,
}
use volume_snapshot_mover.Backup.Cleanup.{
  delete_backup_kinds, finish_cleanup, remove_backup_resources, clean_backup_resources,
}
use volume_snapshot_mover.Backup.Reconcile.{
  store_vsb_batch_number, load_vsb_batch_number, release_place,
}
use volume_snapshot_mover.Backup.Stable.Helpers.{get_vsb-Keeps, update_vsb_status_phase-Keeps}
use volume_snapshot_mover.Backup.Stable.Steps.{
  from_backup-Keeps, is_rep_source_completed-Keeps, mark_in_progress-Keeps, mark_failed-Keeps,
}

module _ {W : Type 0} {P : State W → Type 0} (si : Silent P) (c : Client W) where
  delete_kinds-Keeps :
      (v : VolumeSnapshotBackup) (kinds : List Kind) → Keeps P (delete_backup_kinds c v kinds)
  unfolding delete_backup_kinds
  delete_kinds-Keeps v [] = Keeps-pure tt
  delete_kinds-Keeps v (k ∷ kinds) =
      Keeps-bind _ _ (delete_all_of-Keeps si c k _ _ _) (λ _. delete_kinds-Keeps v kinds)

  pub clean_backup-Keeps : (r : Reconciler) → Keeps P (clean_backup_resources c r)
  unfolding clean_backup_resources remove_backup_resources finish_cleanup
  clean_backup-Keeps r =
      search
        (
          Stable-of_Silent si,
          keeps_rules,
          get_vsb-Keeps,
          update_vsb_status-Keeps,
          delete_kinds-Keeps,
        )
        depth 16

pub record CounterFree {W : Type 0} (P : State W → Type 0) : Type 0 where
  pub counted : (n : ℤ) (s : State W) → P s → P (record s { processing_vsbs = n })
  pub batched :
      (v : String) (s : State W) → P s → P (record s { vsb_batch_number = (atoi v).value })

module _ {W : Type 0} {P : State W → Type 0} (cf : CounterFree P) where
  count-Keeps : (n : ℤ) → Keeps P (set_processing_vsbs n)
  unfolding set_processing_vsbs
  count-Keeps n = record { at = cf.counted n }

  batch_number-Keeps : (v : String) → Keeps P (set_vsb_batch_number (atoi v).value)
  unfolding set_vsb_batch_number
  batch_number-Keeps v = record { at = cf.batched v }

module _ {W : Type 0} {P : State W → Type 0} (st : Stable P) (cf : CounterFree P)
    (c : Client W) where
  pub queue-Keeps : (r : Reconciler) (v : VolumeSnapshotBackup) → Keeps P (set_vsb_queue c r v)
  unfolding set_vsb_queue
  queue-Keeps r v = search (keeps_rules, count-Keeps, update_batching-Keeps) depth 16

  finish-Keeps :
      (r : Reconciler) (source : ReplicationSource) → Keeps P (finish_vol_sync c r source)
  unfolding finish_vol_sync
  finish-Keeps r source =
      search (keeps_rules, count-Keeps, update_batching-Keeps, update_vsb_status_phase-Keeps) depth
        16

  set_status-Keeps :
      (r : Reconciler) (v : VolumeSnapshotBackup) (source : ReplicationSource)
      → Keeps P (set_status_from_rep_source c r v source)
  unfolding set_status_from_rep_source
  set_status-Keeps r v source =
      search
        (
          keeps_rules, finish-Keeps, mark_failed-Keeps, mark_in_progress-Keeps,
          is_rep_source_completed-Keeps,
        )
        depth 16

  pub status-Keeps : (r : Reconciler) → Keeps P (set_vsb_status c r)
  unfolding set_vsb_status with_vsb
  status-Keeps r =
      search (keeps_rules, set_status-Keeps, get_vsb-Keeps, from_backup-Keeps, get_object-Keeps)
        depth 16

  pub release-Keeps : (v : VolumeSnapshotBackup) → Keeps P (release_place {W = W} v)
  unfolding release_place
  release-Keeps v = search (keeps_rules, count-Keeps)

  pub load-Keeps : (v : VolumeSnapshotBackup) → Keeps P (load_vsb_batch_number c v)
  unfolding load_vsb_batch_number store_vsb_batch_number
  load-Keeps v = search (keeps_rules, batch_number-Keeps, get_value-Keeps) depth 16
