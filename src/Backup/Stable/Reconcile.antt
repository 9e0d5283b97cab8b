-- ===== src/Backup/Stable/Reconcile.antt =====
-- A property that plain requests keep is kept by all of Reconcile, once it is kept by the five
-- parts that do more than plain requests: the queue, the batch number, the release of a place, the
-- clean-up and the status step.
use volume_snapshot_mover.Prelude.{Bool}
use volume_snapshot_mover.Api.Meta.{NamespacedName}
use volume_snapshot_mover.Api.Backup.{VolumeSnapshotBackup}
use volume_snapshot_mover.Exec.{Error, Result, ok, err, panic, State, Exec}
use volume_snapshot_mover.Exec.Keeps.{Keeps, keeps_rules}
use volume_snapshot_mover.Exec.Stable.{Stable, update_vsb-Keeps, update_vsb_status-Keeps}
use volume_snapshot_mover.Client.{Client, Reconciler}
use volume_snapshot_mover.Ctrl.{CtrlReturn, on_ok}
use volume_snapshot_mover.Batch.Queue.{set_vsb_queue}
use volume_snapshot_mover.Batch.Run.{reconcile_batch}
use volume_snapshot_mover.Backup.Cleanup.{clean_backup_resources}
use volume_snapshot_mover.Backup.Status.{set_vsb_status}
use volume_snapshot_mover.Backup.Stable.Helpers.{get_vsb-Keeps}
use volume_snapshot_mover.Backup.Stable.Steps.{
  validate-Keeps, mirror_content-Keeps, mirror_snapshot-Keeps, wait_snapshot-Keeps,
  wait_content-Keeps, mirror_pvc-Keeps, bind_pvc-Keeps, is_pvc_bound-Keeps, restic_secret-Keeps,
  create_source-Keeps,
}
use volume_snapshot_mover.Backup.Reconcile.{
  load_vsb_batch_number, release_place, backup_steps, serve_vsb, handle_vsb, reconcile_fetched,
  on_fetched, reconcile,
}

module _ {W : Type 0} {P : State W → Type 0} where
  pub on_ok-Keeps :
      {A : Type 0} (a : Result A) (f : A → Exec W CtrlReturn)
      → ((x : A) → Keeps P (f x))
      → Keeps P (on_ok a f)
  unfolding on_ok
  on_ok-Keeps (ok x) f kf = kf x
  on_ok-Keeps (err e) f kf = search keeps_rules
  on_ok-Keeps panic f kf = search keeps_rules

ruleset step_rules = (
  keeps_rules, validate-Keeps, mirror_content-Keeps, mirror_snapshot-Keeps, wait_snapshot-Keeps,
  wait_content-Keeps, mirror_pvc-Keeps, bind_pvc-Keeps, is_pvc_bound-Keeps, restic_secret-Keeps,
  create_source-Keeps, update_vsb-Keeps, update_vsb_status-Keeps, get_vsb-Keeps, on_ok-Keeps,
)

module _ {W : Type 0} {P : State W → Type 0} (st : Stable P) (c : Client W)
    (clean : (r : Reconciler) → Keeps P (clean_backup_resources c r))
    (queue : (r : Reconciler) (v : VolumeSnapshotBackup) → Keeps P (set_vsb_queue c r v))
    (status : (r : Reconciler) → Keeps P (set_vsb_status c r))
    (release : (v : VolumeSnapshotBackup) → Keeps P (release_place {W = W} v))
    (load : (v : VolumeSnapshotBackup) → Keeps P (load_vsb_batch_number c v)) where
  batch-Keeps : (r : Reconciler) → Keeps P (reconcile_batch (backup_steps c r))
  unfolding backup_steps reconcile_batch
  batch-Keeps r = search (step_rules, clean) depth 40

  serve-Keeps : (r : Reconciler) (v : VolumeSnapshotBackup) (b : Bool) → Keeps P (serve_vsb c r v b)
  unfolding serve_vsb
  serve-Keeps r v b = search (step_rules, batch-Keeps, clean, release, status) depth 16

  handle-Keeps : (r : Reconciler) (v : VolumeSnapshotBackup) → Keeps P (handle_vsb c r v)
  unfolding handle_vsb
  handle-Keeps r v = search (step_rules, serve-Keeps, queue) depth 16

  fetched-Keeps :
      (req : NamespacedName) (a : Result VolumeSnapshotBackup) → Keeps P (on_fetched c req a)
  unfolding on_fetched reconcile_fetched
  fetched-Keeps req (ok v) = search (step_rules, load, handle-Keeps) depth 12
  fetched-Keeps req (err Error.not_found) = search keeps_rules
  fetched-Keeps req (err (Error.message t)) = search keeps_rules
  fetched-Keeps req panic = search keeps_rules

  pub reconcile-Keeps : (req : NamespacedName) → Keeps P (reconcile c req)
  unfolding reconcile
  reconcile-Keeps req = search (step_rules, fetched-Keeps) depth 12
