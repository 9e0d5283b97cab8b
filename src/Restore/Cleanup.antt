-- ===== src/Restore/Cleanup.antt =====
-- CleanRestoreResources of controllers/cleanup.go
use volume_snapshot_mover.Prelude.{Bool, true, false, not, ◌||◌, List, [], ◌∷◌, if◌then◌else◌}
use volume_snapshot_mover.Secret.Keys.{vsr_label}
use volume_snapshot_mover.Api.Meta.{is_zero}
use volume_snapshot_mover.Api.Restore.{VolumeSnapshotRestore, VolumeSnapshotRestorePhase}
use volume_snapshot_mover.Api.Restore.Phase as VsrPhase
use volume_snapshot_mover.Exec.{Kind, Exec, pure, ◌>>=◌, ◌>>◌}
use volume_snapshot_mover.Client.{Client, Reconciler, update_vsr_status, delete_all_of}
use volume_snapshot_mover.Restore.Fetch.{get_vsr}

-- cleanupVSRTypes
abbrev pub cleanup_vsr_types : List Kind
cleanup_vsr_types = Kind.secret ∷ Kind.replication_destination ∷ []

-- The guard of the clean-up: VolSync is done, the restore failed, or the object is being deleted.
unfoldable pub may_clean_restore : VolumeSnapshotRestore → Bool
may_clean_restore vsr =
    VsrPhase.is_vol_sync_completed vsr.status.phase
    || VsrPhase.is_failed vsr.status.phase
    || VsrPhase.is_partially_failed vsr.status.phase
    || not (is_zero vsr.meta.deletion_timestamp)

abbrev pub with_restore_phase :
    VolumeSnapshotRestore → VolumeSnapshotRestorePhase → VolumeSnapshotRestore
with_restore_phase vsr phase = record vsr { status = record (vsr.status) { phase = phase } }

module _ {W : Type 0} (c : Client W) where
  unfoldable pub delete_restore_kinds : VolumeSnapshotRestore → List Kind → Exec W Unit
  delete_restore_kinds vsr [] = pure tt
  delete_restore_kinds vsr (obj ∷ kinds) = do
    delete_all_of c obj vsr_label vsr.meta.name vsr.spec.protected_namespace
    delete_restore_kinds vsr kinds

module _ {W : Type 0} (c : Client W) (r : Reconciler) where
  -- The object is fetched again behind the deletions.
  unfoldable pub finish_restore_cleanup : Exec W Bool
  finish_restore_cleanup = do
    vsr ← get_vsr c r
    if is_zero vsr.meta.deletion_timestamp
        then (do
          update_vsr_status c (with_restore_phase vsr VolumeSnapshotRestorePhase.completed)
          pure true)
        else pure true

  -- Behind the guard: the mark, the deletions and the end.
  unfoldable pub remove_restore_resources : VolumeSnapshotRestore → Exec W Bool
  unfolding delete_restore_kinds finish_restore_cleanup
  remove_restore_resources vsr = do
    update_vsr_status c (with_restore_phase vsr VolumeSnapshotRestorePhase.cleanup)
    delete_restore_kinds c vsr cleanup_vsr_types
    finish_restore_cleanup

  unfoldable pub clean_restore_resources : Exec W Bool
  unfolding may_clean_restore remove_restore_resources
  clean_restore_resources = do
    vsr ← get_vsr c r
    if not (may_clean_restore vsr) then pure false else remove_restore_resources vsr
