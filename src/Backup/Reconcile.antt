-- ===== src/Backup/Reconcile.antt =====
-- Reconcile of controllers/volumesnapshotbackup_controller.go
use volume_snapshot_mover.Prelude.{
  String, Bool, not, ◌&&◌, ◌||◌, none, List, [], ◌∷◌, if◌then◌else◌,
}
use volume_snapshot_mover.Prelude.Int.{pos, eq_ℤ, decr}
use volume_snapshot_mover.Go.Strconv.{atoi}
use volume_snapshot_mover.Api.Meta.{NamespacedName, is_zero}
use volume_snapshot_mover.Api.Backup.{VolumeSnapshotBackup}
use volume_snapshot_mover.Api.Backup.Phase as VsbPhase
use volume_snapshot_mover.Api.Backup.Batching as VsbBatching
use volume_snapshot_mover.Exec.{
  Error, Result, ok, err, panic, Exec, pure, fail, crash, ◌>>=◌, ◌>>◌, attempt, get_state, if_nil,
  set_processing_vsbs, set_vsb_batch_number,
}
use volume_snapshot_mover.Client.{Client, Reconciler, update_vsb, update_vsb_status}
use volume_snapshot_mover.Ctrl.{
  CtrlReturn, stop, requeue_now, requeue_later, give_up, dm_finalizer, on_ok, reconciled_condition,
  conclude,
}
use volume_snapshot_mover.Batch.Values.{get_backup_batch_value}
use volume_snapshot_mover.Batch.Queue.{set_vsb_queue}
use volume_snapshot_mover.Batch.Run.{ReconcileFunc, reconcile_batch}
use volume_snapshot_mover.Backup.Fetch.{get_vsb}
use volume_snapshot_mover.Backup.Validate.{validate_volume_snapshot_mover_backup}
use volume_snapshot_mover.Backup.Snapshots.{
  mirror_volume_snapshot_content, mirror_volume_snapshot,
  wait_for_cloned_volume_snapshot_to_be_ready, wait_for_cloned_volume_snapshot_content_to_be_ready,
}
use volume_snapshot_mover.Backup.Claims.{mirror_pvc, bind_pvc_to_dummy_pod, is_pvc_bound}
use volume_snapshot_mover.Backup.Restic.{create_vsb_restic_secret}
use volume_snapshot_mover.Backup.Source.Create.{create_replication_source}
use volume_snapshot_mover.Backup.Status.{set_vsb_status}
use volume_snapshot_mover.Backup.Cleanup.{clean_backup_resources}

-- Completed or failed, and not being deleted.
unfoldable pub is_settled : VolumeSnapshotBackup → Bool
is_settled vsb =
    (VsbPhase.is_completed vsb.status.phase
      || VsbPhase.is_failed vsb.status.phase
      || VsbPhase.is_partially_failed vsb.status.phase)
    && is_zero vsb.meta.deletion_timestamp

-- A deleted object gives its place in the batch back.
unfoldable pub holds_place : VolumeSnapshotBackup → Bool
holds_place vsb =
    not (VsbBatching.is_unset vsb.status.batching_status)
    && not (VsbBatching.is_completed vsb.status.batching_status)

module _ {W : Type 0} where
  -- `VSBBatchNumber, err = strconv.Atoi(batchValue)`: the variable is set in an error too.
  unfoldable pub store_vsb_batch_number : String → Exec W Unit
  store_vsb_batch_number batch_value = do
    let parsed = atoi batch_value
    set_vsb_batch_number parsed.value
    if_nil parsed.error (pure tt) (λ e. fail (Error.message "strconv.Atoi"))

module _ {W : Type 0} (c : Client W) where
  unfoldable pub load_vsb_batch_number : VolumeSnapshotBackup → Exec W Unit
  unfolding store_vsb_batch_number
  load_vsb_batch_number vsb = do
    s ← get_state
    if eq_ℤ s.vsb_batch_number (pos 0)
        then (do
          batch_value ← get_backup_batch_value c vsb.spec.protected_namespace
          store_vsb_batch_number batch_value)
        else pure tt

  unfoldable pub add_vsb_finalizer : VolumeSnapshotBackup → Exec W CtrlReturn
  add_vsb_finalizer vsb = do
    answer ← attempt (update_vsb c (record vsb { meta = c.add_finalizer vsb.meta dm_finalizer }))
    on_ok answer (λ _. pure requeue_now)

module _ {W : Type 0} where
  unfoldable pub release_place : VolumeSnapshotBackup → Exec W Unit
  unfolding holds_place
  release_place vsb = do
    s ← get_state
    if holds_place vsb then set_processing_vsbs (decr s.processing_vsbs) else pure tt

module _ {W : Type 0} (c : Client W) (r : Reconciler) where
  -- The functions that Reconcile hands to ReconcileBatch.
  unfoldable pub backup_steps : List (ReconcileFunc W)
  backup_steps =
      validate_volume_snapshot_mover_backup c r
      ∷ mirror_volume_snapshot_content c r
      ∷ wait_for_cloned_volume_snapshot_content_to_be_ready c r
      ∷ mirror_volume_snapshot c r
      ∷ wait_for_cloned_volume_snapshot_to_be_ready c r
      ∷ mirror_pvc c r
      ∷ bind_pvc_to_dummy_pod c r
      ∷ create_vsb_restic_secret c r
      ∷ is_pvc_bound c r
      ∷ create_replication_source c r
      ∷ clean_backup_resources c r
      ∷ []

  unfoldable pub delete_vsb : VolumeSnapshotBackup → Exec W CtrlReturn
  unfolding release_place
  delete_vsb vsb = do
    release_place vsb
    cleaned ← attempt (clean_backup_resources c r)
    on_ok cleaned λ _. do
      answer ←
          attempt (update_vsb c (record vsb { meta = c.remove_finalizer vsb.meta dm_finalizer }))
      on_ok answer (λ _. pure stop)

  unfoldable pub run_backup : VolumeSnapshotBackup → Exec W CtrlReturn
  unfolding backup_steps
  run_backup vsb = do
    batch ← attempt (reconcile_batch (backup_steps))
    attempt (
        update_vsb_status c (record vsb {
          status = record (vsb.status) {
            conditions = c.set_status_condition vsb.status.conditions (reconciled_condition batch);
          };
        }))
    status_step ← attempt (set_vsb_status c r)
    pure (conclude batch status_step)

  -- Behind the queue.
  unfoldable pub serve_vsb : VolumeSnapshotBackup → Bool → Exec W CtrlReturn
  unfolding delete_vsb run_backup
  serve_vsb vsb processed =
      if not processed
      then pure (requeue_later none)
      else if not (is_zero vsb.meta.deletion_timestamp)
      then delete_vsb vsb
      else run_backup vsb

  -- Behind the batch number.
  unfoldable pub handle_vsb : VolumeSnapshotBackup → Exec W CtrlReturn
  unfolding is_settled add_vsb_finalizer serve_vsb
  handle_vsb vsb =
      if is_settled vsb
      then pure stop
      else if not (c.contains_finalizer vsb.meta dm_finalizer)
      then add_vsb_finalizer c vsb
      else (do processed ← attempt (set_vsb_queue c r vsb); on_ok processed (serve_vsb vsb))

-- The reconciler of one request, once the object is known.
abbrev pub reconciler_of : NamespacedName → VolumeSnapshotBackup → Reconciler
reconciler_of req vsb = record {
  req = req;
  namespaced_name = record { namespace = vsb.spec.protected_namespace; name = vsb.meta.name };
}

-- The reconciler of a request whose object has not been fetched.
abbrev pub fresh_reconciler : NamespacedName → Reconciler
fresh_reconciler req = record { req = req; namespaced_name = record { namespace = ""; name = "" } }

module _ {W : Type 0} (c : Client W) where
  unfoldable pub reconcile_fetched : NamespacedName → VolumeSnapshotBackup → Exec W CtrlReturn
  unfolding load_vsb_batch_number handle_vsb
  reconcile_fetched req vsb = do
    loaded ← attempt (load_vsb_batch_number c vsb)
    on_ok loaded (λ _. handle_vsb c (reconciler_of req vsb) vsb)

  -- A missing object ends the reconciliation.
  unfoldable pub on_fetched : NamespacedName → Result VolumeSnapshotBackup → Exec W CtrlReturn
  unfolding reconcile_fetched
  on_fetched req (ok vsb) = reconcile_fetched req vsb
  on_fetched req (err Error.not_found) = pure stop
  on_fetched req (err (Error.message t)) = pure (give_up (Error.message t))
  on_fetched req panic = crash

  unfoldable pub reconcile : NamespacedName → Exec W CtrlReturn
  unfolding on_fetched
  reconcile req = do answer ← attempt (get_vsb c (fresh_reconciler req)); on_fetched req answer
