-- ===== src/Restore/Reconcile.antt =====
-- Reconcile of controllers/volumesnapshotrestore_controller.go
use volume_snapshot_mover.Prelude.{
  String, Bool, not, ◌&&◌, ◌||◌, none, List, [], ◌∷◌, if◌then◌else◌,
}
use volume_snapshot_mover.Prelude.Int.{pos, eq_ℤ, decr}
use volume_snapshot_mover.Go.Strconv.{atoi}
use volume_snapshot_mover.Api.Meta.{NamespacedName, is_zero}
use volume_snapshot_mover.Api.Restore.{VolumeSnapshotRestore}
use volume_snapshot_mover.Api.Restore.Phase as VsrPhase
use volume_snapshot_mover.Api.Restore.Batching as VsrBatching
use volume_snapshot_mover.Exec.{
  Error, Result, ok, err, panic, Exec, pure, fail, crash, ◌>>=◌, ◌>>◌, attempt, get_state, if_nil,
  set_processing_vsrs, set_vsr_batch_number,
}
use volume_snapshot_mover.Client.{Client, Reconciler, update_vsr, update_vsr_status}
use volume_snapshot_mover.Ctrl.{
  CtrlReturn, stop, requeue_now, requeue_later, give_up, dm_finalizer, on_ok, reconciled_condition,
  conclude,
}
use volume_snapshot_mover.Batch.Values.{get_restore_batch_value}
use volume_snapshot_mover.Batch.Queue.{set_vsr_queue}
use volume_snapshot_mover.Batch.Run.{ReconcileFunc, reconcile_batch}
use volume_snapshot_mover.Restore.Fetch.{get_vsr}
use volume_snapshot_mover.Restore.Validate.{validate_volume_snapshot_mover_restore}
use volume_snapshot_mover.Restore.Restic.{create_vsr_restic_secret}
use volume_snapshot_mover.Restore.Destination.{create_replication_destination}
use volume_snapshot_mover.Restore.Snapshots.{wait_for_vol_sync_snapshot_content_to_be_ready}
use volume_snapshot_mover.Restore.Status.{set_vsr_status}
use volume_snapshot_mover.Restore.Cleanup.{clean_restore_resources}

-- Completed or failed, and not being deleted.
unfoldable pub is_restore_settled : VolumeSnapshotRestore → Bool
is_restore_settled vsr =
    (VsrPhase.is_completed vsr.status.phase
      || VsrPhase.is_failed vsr.status.phase
      || VsrPhase.is_partially_failed vsr.status.phase)
    && is_zero vsr.meta.deletion_timestamp

-- A deleted object gives its place in the batch back.
unfoldable pub holds_restore_place : VolumeSnapshotRestore → Bool
holds_restore_place vsr =
    not (VsrBatching.is_unset vsr.status.batching_status)
    && not (VsrBatching.is_completed vsr.status.batching_status)

module _ {W : Type 0} where
  -- `VSRBatchNumber, err = strconv.Atoi(batchValue)`: the variable is set in an error too.
  unfoldable pub store_vsr_batch_number : String → Exec W Unit
  store_vsr_batch_number batch_value = do
    let parsed = atoi batch_value
    set_vsr_batch_number parsed.value
    if_nil parsed.error (pure tt) (λ e. fail (Error.message "strconv.Atoi"))

  unfoldable pub release_restore_place : VolumeSnapshotRestore → Exec W Unit
  unfolding holds_restore_place
  release_restore_place vsr = do
    s ← get_state
    if holds_restore_place vsr then set_processing_vsrs (decr s.processing_vsrs) else pure tt

module _ {W : Type 0} (c : Client W) where
  unfoldable pub load_vsr_batch_number : VolumeSnapshotRestore → Exec W Unit
  unfolding store_vsr_batch_number
  load_vsr_batch_number vsr = do
    s ← get_state
    if eq_ℤ s.vsr_batch_number (pos 0)
        then (do
          batch_value ← get_restore_batch_value c vsr.spec.protected_namespace
          store_vsr_batch_number batch_value)
        else pure tt

  unfoldable pub add_vsr_finalizer : VolumeSnapshotRestore → Exec W CtrlReturn
  add_vsr_finalizer vsr = do
    answer ← attempt (update_vsr c (record vsr { meta = c.add_finalizer vsr.meta dm_finalizer }))
    on_ok answer (λ _. pure requeue_now)

module _ {W : Type 0} (c : Client W) (r : Reconciler) where
  -- The functions that Reconcile hands to ReconcileBatch.
  unfoldable pub restore_steps : List (ReconcileFunc W)
  restore_steps =
      validate_volume_snapshot_mover_restore c r
      ∷ create_vsr_restic_secret c r
      ∷ create_replication_destination c r
      ∷ wait_for_vol_sync_snapshot_content_to_be_ready c r
      ∷ clean_restore_resources c r
      ∷ []

  unfoldable pub delete_vsr : VolumeSnapshotRestore → Exec W CtrlReturn
  unfolding release_restore_place
  delete_vsr vsr = do
    release_restore_place vsr
    cleaned ← attempt (clean_restore_resources c r)
    on_ok cleaned λ _. do
      answer ←
          attempt (update_vsr c (record vsr { meta = c.remove_finalizer vsr.meta dm_finalizer }))
      on_ok answer (λ _. pure stop)

  unfoldable pub run_restore : VolumeSnapshotRestore → Exec W CtrlReturn
  unfolding restore_steps
  run_restore vsr = do
    batch ← attempt (reconcile_batch restore_steps)
    attempt (
        update_vsr_status c (record vsr {
          status = record (vsr.status) {
            conditions = c.set_status_condition vsr.status.conditions (reconciled_condition batch);
          };
        }))
    status_step ← attempt (set_vsr_status c r)
    pure (conclude batch status_step)

  -- Behind the queue, which hands over the object with its batching status.
  unfoldable pub serve_vsr : Bool × VolumeSnapshotRestore → Exec W CtrlReturn
  unfolding delete_vsr run_restore
  serve_vsr (processed, vsr) =
      if not processed
      then pure (requeue_later none)
      else if not (is_zero vsr.meta.deletion_timestamp)
      then delete_vsr vsr
      else run_restore vsr

  -- Behind the batch number.
  unfoldable pub handle_vsr : VolumeSnapshotRestore → Exec W CtrlReturn
  unfolding is_restore_settled add_vsr_finalizer serve_vsr
  handle_vsr vsr =
      if is_restore_settled vsr
      then pure stop
      else if not (c.contains_finalizer vsr.meta dm_finalizer)
      then add_vsr_finalizer c vsr
      else (do queued ← attempt (set_vsr_queue c r vsr); on_ok queued (λ q. serve_vsr q))

-- The reconciler of one request, before and behind the fetch of the object.
abbrev pub unfetched : NamespacedName → Reconciler
unfetched req = record { req = req; namespaced_name = record { namespace = ""; name = "" } }

abbrev pub restorer_of : NamespacedName → VolumeSnapshotRestore → Reconciler
restorer_of req vsr = record {
  req = req;
  namespaced_name = record { namespace = vsr.spec.protected_namespace; name = vsr.meta.name };
}

module _ {W : Type 0} (c : Client W) where
  unfoldable pub restore_fetched : NamespacedName → VolumeSnapshotRestore → Exec W CtrlReturn
  unfolding load_vsr_batch_number handle_vsr
  restore_fetched req vsr = do
    loaded ← attempt (load_vsr_batch_number c vsr)
    on_ok loaded (λ _. handle_vsr c (restorer_of req vsr) vsr)

  -- A missing object ends the reconciliation.
  unfoldable pub on_vsr_fetched : NamespacedName → Result VolumeSnapshotRestore → Exec W CtrlReturn
  unfolding restore_fetched
  on_vsr_fetched req (ok vsr) = restore_fetched req vsr
  on_vsr_fetched req (err Error.not_found) = pure stop
  on_vsr_fetched req (err (Error.message t)) = pure (give_up (Error.message t))
  on_vsr_fetched req panic = crash

  unfoldable pub reconcile_restore : NamespacedName → Exec W CtrlReturn
  unfolding on_vsr_fetched
  reconcile_restore req = do answer ← attempt (get_vsr c (unfetched req)); on_vsr_fetched req answer
