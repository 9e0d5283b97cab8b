-- ===== src/Restore/Stable.antt =====
-- A property that plain requests keep is kept by all of the restore's Reconcile, once it is kept
-- by the five parts that do more: the queue, the batch number, the release of a place, the
-- clean-up and the status step.
use volume_snapshot_mover.Prelude.{String, Bool, Option, [], ◌∷◌, none, some, StringMap}
use volume_snapshot_mover.Api.Meta.{NamespacedName}
use volume_snapshot_mover.Api.Restore.{VolumeSnapshotRestore, VolumeSnapshotRestorePhase}
use volume_snapshot_mover.Api.Cluster.{Secret, ConfigMap, ServiceAccount}
use volume_snapshot_mover.Api.VolSync.{ResticSpec, ReplicationDestination, ReplicationStatus}
use volume_snapshot_mover.Exec.{Error, Result, ok, err, panic, State}
use volume_snapshot_mover.Exec.Keeps.{Keeps, keeps_rules}
use volume_snapshot_mover.Exec.Stable.{
  Stable, stable_rules, update_vsr-Keeps, update_vsr_status-Keeps,
}
use volume_snapshot_mover.Client.{Client, Reconciler}
use volume_snapshot_mover.Batch.Queue.{set_vsr_queue}
use volume_snapshot_mover.Batch.Run.{reconcile_batch}
use volume_snapshot_mover.Backup.Stable.Helpers.{
  build_in_place-Keeps, pass_custom_ca-Keeps, get_data_mover_config_map-Keeps,
  get_velero_service_account-Keeps, get_pod_security_context-Keeps,
}
use volume_snapshot_mover.Backup.Stable.Reconcile.{on_ok-Keeps}
use volume_snapshot_mover.Restore.Fetch.{
  destination_sync_time, get_vsr, with_vsr, update_vsr_status_phase,
}
use volume_snapshot_mover.Restore.Validate.{
  check_for_one_default_vsr_snap_class, check_for_one_default_vsr_storage_class,
  record_restore_start, conclude_restore_validation, validate_fetched_restore, validate_answer,
  validate_volume_snapshot_mover_restore,
}
use volume_snapshot_mover.Restore.Restic.{create_vsr_restic_secret}
use volume_snapshot_mover.Restore.Destination.{
  set_destination_cache, set_destination_caches, configure_rep_dest_restic_vol_options,
  build_replication_destination, place_destination, create_replication_destination,
}
use volume_snapshot_mover.Restore.Snapshots.{
  content_of_image, get_vol_sync_snapshot_content, record_content,
  wait_for_vol_sync_snapshot_content_to_be_ready,
}
use volume_snapshot_mover.Restore.Status.{update_vsr_from_restore, follow_progress, set_vsr_status}
use volume_snapshot_mover.Restore.Cleanup.{clean_restore_resources}
use volume_snapshot_mover.Restore.Reconcile.{
  load_vsr_batch_number, release_restore_place, restore_steps, delete_vsr, run_restore, serve_vsr,
  add_vsr_finalizer, handle_vsr, restore_fetched, on_vsr_fetched, reconcile_restore,
}

module _ {W : Type 0} {P : State W → Type 0} (st : Stable P) (c : Client W) (r : Reconciler) where
  sync_time-Keeps : (o : Option ReplicationDestination) → Keeps P (destination_sync_time {W = W} o)
  unfolding destination_sync_time
  sync_time-Keeps none = search keeps_rules
  sync_time-Keeps (some d) = search keeps_rules

  pub get_vsr-Keeps : Keeps P (get_vsr c r)
  unfolding get_vsr
  get_vsr-Keeps = search stable_rules

  pub vsr_phase-Keeps :
      (o : Option ReplicationDestination) (p : VolumeSnapshotRestorePhase)
      → Keeps P (update_vsr_status_phase c r o p)
  unfolding update_vsr_status_phase
  vsr_phase-Keeps o p = search (stable_rules, sync_time-Keeps, get_vsr-Keeps) depth 12

  conclude-Keeps :
      (v : VolumeSnapshotRestore) (o : Option Error) → Keeps P (conclude_restore_validation c r v o)
  unfolding conclude_restore_validation record_restore_start
  conclude-Keeps v none = search stable_rules depth 12
  conclude-Keeps v (some e) = search (stable_rules, vsr_phase-Keeps) depth 12

  answer-Keeps : (a : Result VolumeSnapshotRestore) → Keeps P (validate_answer c r a)
  unfolding validate_answer validate_fetched_restore check_for_one_default_vsr_snap_class
      check_for_one_default_vsr_storage_class
  answer-Keeps (ok v) = search (stable_rules, conclude-Keeps) depth 16
  answer-Keeps (err Error.not_found) = search keeps_rules
  answer-Keeps (err (Error.message t)) = search keeps_rules
  answer-Keeps panic = search keeps_rules

  validate_restore-Keeps : Keeps P (validate_volume_snapshot_mover_restore c r)
  unfolding validate_volume_snapshot_mover_restore
  validate_restore-Keeps = search (keeps_rules, get_vsr-Keeps, answer-Keeps)

  restore_secret-Keeps : Keeps P (create_vsr_restic_secret c r)
  unfolding create_vsr_restic_secret with_vsr
  restore_secret-Keeps =
      search (stable_rules, get_vsr-Keeps, vsr_phase-Keeps, build_in_place-Keeps) depth 20

  caches-Keeps :
      (v : VolumeSnapshotRestore) (m rest : StringMap String) (o : ResticSpec)
      → Keeps P (set_destination_caches c v m rest o)
  unfolding set_destination_caches set_destination_cache
  caches-Keeps v m [] o = search keeps_rules
  caches-Keeps v m ((key, val) ∷ rest) o =
      search (keeps_rules, get_pod_security_context-Keeps, caches-Keeps v m rest) depth 16

  build_destination-Keeps :
      (v : VolumeSnapshotRestore) (s : Secret) (cm : Option ConfigMap) (sa : ServiceAccount)
      (d : ReplicationDestination)
      → Keeps P (build_replication_destination c v s cm sa d)
  unfolding build_replication_destination configure_rep_dest_restic_vol_options
  build_destination-Keeps v s cm sa d =
      search (keeps_rules, caches-Keeps, pass_custom_ca-Keeps) depth 16

  destination-Keeps : Keeps P (create_replication_destination c r)
  unfolding create_replication_destination with_vsr place_destination
  destination-Keeps =
      search
        (
          stable_rules, get_vsr-Keeps, build_destination-Keeps, get_data_mover_config_map-Keeps,
          get_velero_service_account-Keeps,
        )
        depth 20

  wait_restore-Keeps : Keeps P (wait_for_vol_sync_snapshot_content_to_be_ready c r)
  unfolding wait_for_vol_sync_snapshot_content_to_be_ready with_vsr get_vol_sync_snapshot_content
      content_of_image record_content
  wait_restore-Keeps = search (stable_rules, get_vsr-Keeps) depth 24

  pub from_restore-Keeps : (v : VolumeSnapshotRestore) → Keeps P (update_vsr_from_restore c v)
  unfolding update_vsr_from_restore
  from_restore-Keeps v = search stable_rules depth 16

  pub follow-Keeps :
      (v : VolumeSnapshotRestore) (s : ReplicationStatus) (p : _)
      → Keeps P (follow_progress c r v s p)
  unfolding follow_progress
  follow-Keeps v s p = search stable_rules depth 16

module _ {W : Type 0} {P : State W → Type 0} (st : Stable P) (c : Client W)
    (clean : (r : Reconciler) → Keeps P (clean_restore_resources c r))
    (queue : (r : Reconciler) (v : VolumeSnapshotRestore) → Keeps P (set_vsr_queue c r v))
    (status : (r : Reconciler) → Keeps P (set_vsr_status c r))
    (release : (v : VolumeSnapshotRestore) → Keeps P (release_restore_place {W = W} v))
    (load : (v : VolumeSnapshotRestore) → Keeps P (load_vsr_batch_number c v)) where
  batch-Keeps : (r : Reconciler) → Keeps P (reconcile_batch (restore_steps c r))
  unfolding restore_steps reconcile_batch
  batch-Keeps r =
      search
        (
          keeps_rules, validate_restore-Keeps, restore_secret-Keeps, destination-Keeps,
          wait_restore-Keeps, clean,
        )
        depth 24

  serve-Keeps : (r : Reconciler) (q : Bool × VolumeSnapshotRestore) → Keeps P (serve_vsr c r q)
  unfolding serve_vsr delete_vsr run_restore
  serve-Keeps r (b, v) =
      search
        (
          keeps_rules, on_ok-Keeps, batch-Keeps, clean, release, status, update_vsr-Keeps,
          update_vsr_status-Keeps,
        )
        depth 16

  handle-Keeps : (r : Reconciler) (v : VolumeSnapshotRestore) → Keeps P (handle_vsr c r v)
  unfolding handle_vsr add_vsr_finalizer
  handle-Keeps r v =
      search (keeps_rules, on_ok-Keeps, serve-Keeps, queue, update_vsr-Keeps) depth 16

  fetched-Keeps :
      (req : NamespacedName) (a : Result VolumeSnapshotRestore) → Keeps P (on_vsr_fetched c req a)
  unfolding on_vsr_fetched restore_fetched
  fetched-Keeps req (ok v) = search (keeps_rules, on_ok-Keeps, load, handle-Keeps) depth 12
  fetched-Keeps req (err Error.not_found) = search keeps_rules
  fetched-Keeps req (err (Error.message t)) = search keeps_rules
  fetched-Keeps req panic = search keeps_rules

  pub reconcile_restore-Keeps : (req : NamespacedName) → Keeps P (reconcile_restore c req)
  unfolding reconcile_restore
  reconcile_restore-Keeps req = search (keeps_rules, get_vsr-Keeps, fetched-Keeps) depth 12
