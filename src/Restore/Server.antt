-- ===== src/Restore/Server.antt =====
-- An API server that answers the requests for restores.
pub mod Deleted
use volume_snapshot_mover.Prelude.{
  Bool, true, false, not, ◌&&◌, ◌||◌, ◌≡◌, refl, String, List, [], ◌∷◌, ◌⊎◌, Bool-cases, inl, inr,
  arith, if◌then◌else◌,
}
use volume_snapshot_mover.Prelude.Int.{ℤ, pos, eq_ℤ, ltb_ℤ, leb_ℤ}
use volume_snapshot_mover.Api.Meta.{NamespacedName, ObjectMeta, is_zero}
use volume_snapshot_mover.Api.Restore.{VolumeSnapshotRestore, VolumeSnapshotRestoreBatchingStatus}
use volume_snapshot_mover.Api.Restore.Batching as VsrBatching
use volume_snapshot_mover.Exec.{
  Kind, Call, Result, ok, State, Exec, pure, ◌>>=◌, attempt, get_state, request,
  set_processing_vsrs,
}
use volume_snapshot_mover.Exec.Safe.{Safe, allowed, Safe-pure, Safe-bind, after-Safe, safe_rules}
use volume_snapshot_mover.Client.{
  Client, Reconciler, get_object, update_vsr, update_vsr_status, delete_all_of,
}
use volume_snapshot_mover.Ctrl.{CtrlReturn, stop, on_ok, dm_finalizer}
use volume_snapshot_mover.Ctrl.Answered.{after-attempt, on_answer}
use volume_snapshot_mover.Batch.Queue.{update_vsr_batching_status, set_vsr_queue}
use volume_snapshot_mover.Restore.Fetch.{get_vsr}
use volume_snapshot_mover.Restore.Cleanup.{
  delete_restore_kinds, finish_restore_cleanup, remove_restore_resources, clean_restore_resources,
}
use volume_snapshot_mover.Restore.Reconcile.{
  is_restore_settled, release_restore_place, load_vsr_batch_number, delete_vsr, serve_vsr,
  handle_vsr, restorer_of, restore_fetched, on_vsr_fetched, reconcile_restore,
}

-- Each request that is made for a restore is answered, but for the Update of the object itself, of
-- which nothing is said: it may be refused, as an API server does with an object whose resource
-- version is an old one.
-- The status writes of the passes in question are of objects that the server has just handed out.
pub record ServesRestores {W : Type 0} (c : Client W) : Type 0 where
  pub fetched : (key : NamespacedName) (w : W) → allowed false (c.vsrs.read key w).0 ≡ true
  pub recorded :
      (v : VolumeSnapshotRestore) (w : W) → allowed false (c.vsr_status_update v w).0 ≡ true
  pub deleted :
      (k : Kind) (label value ns : String) (w : W)
      → allowed false (c.delete_matching k label value ns w).0 ≡ true

module _ {W : Type 0} {c : Client W} (sv : ServesRestores c) where
  read-Safe :
      (key : NamespacedName) → Safe false (get_object Kind.volume_snapshot_restore c.vsrs key)
  unfolding get_object
  read-Safe key = search (safe_rules, sv.fetched key)

  get_vsr-Safe : (r : Reconciler) → Safe false (get_vsr c r)
  unfolding get_vsr
  get_vsr-Safe r = read-Safe r.req

  status-Safe : (v : VolumeSnapshotRestore) → Safe false (update_vsr_status c v)
  unfolding update_vsr_status
  status-Safe v = search (safe_rules, sv.recorded v)

  delete_all_of-Safe :
      (k : Kind) (label value ns : String) → Safe false (delete_all_of c k label value ns)
  unfolding delete_all_of
  delete_all_of-Safe k label value ns = search (safe_rules, sv.deleted k label value ns)

  count-Safe : (n : ℤ) → Safe {W = W} false (set_processing_vsrs n)
  unfolding set_processing_vsrs
  count-Safe n = record { at = λ s. refl }

  pub batching-Safe :
      (r : Reconciler) (b : VolumeSnapshotRestoreBatchingStatus)
      → Safe false (update_vsr_batching_status c r b)
  unfolding update_vsr_batching_status
  batching-Safe r b = search (safe_rules, read-Safe, status-Safe) depth 12

  delete_kinds-Safe :
      (v : VolumeSnapshotRestore) (kinds : List Kind) → Safe false (delete_restore_kinds c v kinds)
  unfolding delete_restore_kinds
  delete_kinds-Safe v [] = Safe-pure tt
  delete_kinds-Safe v (k ∷ kinds) =
      Safe-bind _ _ (delete_all_of-Safe k _ _ _) (λ _. delete_kinds-Safe v kinds)

  pub clean-Safe : (r : Reconciler) → Safe false (clean_restore_resources c r)
  unfolding clean_restore_resources remove_restore_resources finish_restore_cleanup
  clean-Safe r = search (safe_rules, get_vsr-Safe, status-Safe, delete_kinds-Safe) depth 16

  pub release-Safe : (v : VolumeSnapshotRestore) → Safe {W = W} false (release_restore_place v)
  unfolding release_restore_place
  release-Safe v = search (safe_rules, count-Safe) depth 10
