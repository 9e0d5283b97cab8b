-- ===== src/Restore/Validate.antt =====
-- ValidateVolumeSnapshotMoverRestore and its class checks of controllers/validator.go
use volume_snapshot_mover.Prelude.{String, Bool, true, Option, none, some, ◌==◌, if◌then◌else◌}
use volume_snapshot_mover.Api.Meta.{is_zero}
use volume_snapshot_mover.Api.Restore.{VolumeSnapshotRestore, VolumeSnapshotRestorePhase}
use volume_snapshot_mover.Exec.{
  Error, Result, ok, err, panic, Kind, Exec, pure, fail, crash, ◌>>=◌, ◌>>◌, from_result, attempt,
}
use volume_snapshot_mover.Client.{Client, Reconciler, list_objects, update_vsr_status, now}
use volume_snapshot_mover.Classes.{
  check_for_one_default_snap_class, check_for_one_default_storage_class,
}
use volume_snapshot_mover.Backup.Validate.{note_fault}
use volume_snapshot_mover.Restore.Fetch.{get_vsr, update_vsr_status_phase}

module _ {W : Type 0} (c : Client W) where
  unfoldable pub check_for_one_default_vsr_snap_class : Exec W Bool
  check_for_one_default_vsr_snap_class = do
    classes ← list_objects Kind.volume_snapshot_class c.volume_snapshot_classes ""
    from_result (check_for_one_default_snap_class (some classes))
    pure true

  unfoldable pub check_for_one_default_vsr_storage_class : Exec W Bool
  check_for_one_default_vsr_storage_class = do
    classes ← list_objects Kind.storage_class c.storage_classes ""
    from_result (check_for_one_default_storage_class (some classes))
    pure true

-- One `if len(field) == 0 { errString = … }`: a later fault replaces an earlier one.
abbrev pub need : String → String → Option Error → Option Error
need field text fault = if field == "" then some (Error.message text) else fault

unfoldable pub restore_fault : VolumeSnapshotRestore → Option Error
restore_fault vsr =
    need vsr.spec.protected_namespace "protected ns cannot be empty for volumesnapshotrestore" (
      need vsr.spec.volume_snapshot_mover_backupref.backed_up_pvc_data.size
        "volumeSnapshotMoverBackupref BackedUpPVCData size cannot be empty"
        (need vsr.spec.volume_snapshot_mover_backupref.backed_up_pvc_data.name
          "volumeSnapshotMoverBackupref BackedUpPVCData name cannot be empty"
          (need vsr.spec.volume_snapshot_mover_backupref.restic_repository
            "volumeSnapshotMoverBackupref ResticRepository cannot be empty"
            (need vsr.spec.restic_secret_ref "ResticSecretRef name cannot be empty" none))))

module _ {W : Type 0} (c : Client W) (r : Reconciler) where
  -- The first pass of the validation records the start.
  unfoldable pub record_restore_start : VolumeSnapshotRestore → Exec W Bool
  record_restore_start vsr =
      if is_zero vsr.status.start_timestamp
      then (do
        t ← now c
        update_vsr_status c
            (record vsr { status = record (vsr.status) { start_timestamp = some t } })
        pure true)
      else pure true

  unfoldable pub conclude_restore_validation : VolumeSnapshotRestore → Option Error → Exec W Bool
  unfolding record_restore_start
  conclude_restore_validation vsr none = record_restore_start vsr
  conclude_restore_validation vsr (some e) = do
    update_vsr_status_phase c r none VolumeSnapshotRestorePhase.failed
    fail e

  unfoldable pub validate_fetched_restore : VolumeSnapshotRestore → Exec W Bool
  unfolding restore_fault conclude_restore_validation
  validate_fetched_restore vsr = do
    snap ← attempt (check_for_one_default_vsr_snap_class c)
    storage ← attempt (check_for_one_default_vsr_storage_class c)
    conclude_restore_validation vsr (note_fault (note_fault (restore_fault vsr) snap) storage)

  -- A missing object is no fault; another error of the fetch is replaced by one text.
  unfoldable pub validate_answer : Result VolumeSnapshotRestore → Exec W Bool
  unfolding validate_fetched_restore
  validate_answer (ok vsr) = validate_fetched_restore vsr
  validate_answer (err Error.not_found) = pure true
  validate_answer (err (Error.message t)) =
      fail (Error.message "unable to fetch volumesnapshotrestore")
  validate_answer panic = crash

  unfoldable pub validate_volume_snapshot_mover_restore : Exec W Bool
  unfolding validate_answer
  validate_volume_snapshot_mover_restore = do answer ← attempt (get_vsr c r); validate_answer answer
