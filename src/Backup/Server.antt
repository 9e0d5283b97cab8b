-- ===== src/Backup/Server.antt =====
-- An API server that answers the requests for backups, and what the backup controller gets done
-- with it.
pub mod Handover
pub mod Deleted
pub mod Released
use volume_snapshot_mover.Prelude.{
  Bool, true, false, ◌≡◌, refl, String, List, [], ◌∷◌, if◌then◌else◌,
}
use volume_snapshot_mover.Prelude.Int.{ℤ}
use volume_snapshot_mover.Api.Meta.{NamespacedName}
use volume_snapshot_mover.Api.Backup.{VolumeSnapshotBackup, VolumeSnapshotBackupBatchingStatus}
use volume_snapshot_mover.Exec.{Kind, Exec, set_processing_vsbs, pure}
use volume_snapshot_mover.Exec.Safe.{Safe, allowed, Safe-pure, Safe-bind, safe_rules}
use volume_snapshot_mover.Client.{
  Client, Reconciler, get_object, update_vsb, update_vsb_status, delete_all_of, now,
}
use volume_snapshot_mover.Batch.Queue.{update_vsb_batching_status, set_vsb_queue}
use volume_snapshot_mover.Backup.Fetch.{get_vsb}
use volume_snapshot_mover.Backup.Cleanup.{
  delete_backup_kinds, finish_cleanup, remove_backup_resources, clean_backup_resources,
}

-- No request that is made for a backup panics; with `errors` false each one is answered, but for
-- the Update of the object itself, of which nothing is said: it may be refused, as an API server
-- does with an object whose resource version is an old one.
-- The status writes of the passes in question are of objects that the server has just handed out.
pub record Serves {W : Type 0} (errors : Bool) (c : Client W) : Type 0 where
  pub fetched : (key : NamespacedName) (w : W) → allowed errors (c.vsbs.read key w).0 ≡ true
  pub recorded :
      (v : VolumeSnapshotBackup) (w : W) → allowed errors (c.vsb_status_update v w).0 ≡ true
  pub deleted :
      (k : Kind) (label value ns : String) (w : W)
      → allowed errors (c.delete_matching k label value ns w).0 ≡ true
  pub timed : (w : W) → allowed errors (c.clock w).0 ≡ true

module _ {W : Type 0} {errors : Bool} {c : Client W} (sv : Serves errors c) where
  pub read-Safe :
      (key : NamespacedName) → Safe errors (get_object Kind.volume_snapshot_backup c.vsbs key)
  unfolding get_object
  read-Safe key = search (safe_rules, sv.fetched key)

  pub get_vsb-Safe : (r : Reconciler) → Safe errors (get_vsb c r)
  unfolding get_vsb
  get_vsb-Safe r = read-Safe r.req

  pub status-Safe : (v : VolumeSnapshotBackup) → Safe errors (update_vsb_status c v)
  unfolding update_vsb_status
  status-Safe v = search (safe_rules, sv.recorded v)

  pub now-Safe : Safe errors (now c)
  unfolding now
  now-Safe = record { at = λ s. sv.timed s.world }

  delete_all_of-Safe :
      (k : Kind) (label value ns : String) → Safe errors (delete_all_of c k label value ns)
  unfolding delete_all_of
  delete_all_of-Safe k label value ns = search (safe_rules, sv.deleted k label value ns)

  pub count-Safe : (n : ℤ) → Safe {W = W} errors (set_processing_vsbs n)
  unfolding set_processing_vsbs
  count-Safe n = record { at = λ s. refl }

  pub update_batching-Safe :
      (r : Reconciler) (b : VolumeSnapshotBackupBatchingStatus)
      → Safe errors (update_vsb_batching_status c r b)
  unfolding update_vsb_batching_status
  update_batching-Safe r b = search (safe_rules, read-Safe, status-Safe) depth 12

  pub queue-Safe : (r : Reconciler) (v : VolumeSnapshotBackup) → Safe errors (set_vsb_queue c r v)
  unfolding set_vsb_queue
  queue-Safe r v = search (safe_rules, update_batching-Safe, count-Safe) depth 16

  delete_kinds-Safe :
      (v : VolumeSnapshotBackup) (kinds : List Kind) → Safe errors (delete_backup_kinds c v kinds)
  unfolding delete_backup_kinds
  delete_kinds-Safe v [] = Safe-pure tt
  delete_kinds-Safe v (k ∷ kinds) =
      Safe-bind _ _ (delete_all_of-Safe k _ _ _) (λ _. delete_kinds-Safe v kinds)

  pub clean-Safe : (r : Reconciler) → Safe errors (clean_backup_resources c r)
  unfolding clean_backup_resources remove_backup_resources finish_cleanup
  clean-Safe r = search (safe_rules, get_vsb-Safe, status-Safe, delete_kinds-Safe) depth 16
