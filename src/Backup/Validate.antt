-- ===== src/Backup/Validate.antt =====
-- ValidateVolumeSnapshotMoverBackup and the backup's class checks of controllers/validator.go
use volume_snapshot_mover.Prelude.{Bool, true, Option, none, some, ◌==◌, if◌then◌else◌}
use volume_snapshot_mover.Classes.{
  check_for_one_default_snap_class, check_for_one_default_storage_class,
}
use volume_snapshot_mover.Api.Meta.{is_zero}
use volume_snapshot_mover.Api.Backup.{VolumeSnapshotBackup, VolumeSnapshotBackupPhase}
use volume_snapshot_mover.Exec.{
  Error, Result, ok, err, panic, Kind, Exec, pure, fail, from_result, ◌>>=◌, ◌>>◌, attempt,
}
use volume_snapshot_mover.Client.{
  Client, Reconciler, get_object, list_objects, update_vsb_status, now,
}
use volume_snapshot_mover.Backup.Fetch.{with_vsb, cluster_wide, update_vsb_status_phase}

module _ {W : Type 0} (c : Client W) where
  unfoldable pub check_for_one_default_vsb_snap_class : Exec W Bool
  check_for_one_default_vsb_snap_class = do
    classes ← list_objects Kind.volume_snapshot_class c.volume_snapshot_classes ""
    from_result (check_for_one_default_snap_class (some classes))
    pure true

  unfoldable pub check_for_one_default_vsb_storage_class : Exec W Bool
  check_for_one_default_vsb_storage_class = do
    classes ← list_objects Kind.storage_class c.storage_classes ""
    from_result (check_for_one_default_storage_class (some classes))
    pure true

-- `errors.New(err.Error())`: a new error is never a `not found` of the API server.
abbrev pub restate : Error → Error
restate Error.not_found = Error.message "not found"
restate (Error.message t) = Error.message t

-- `if !ok { errString = err.Error() }`: the text of the latest fault, if there is one.
unfoldable pub note_fault : Option Error → Result Bool → Option Error
note_fault fault (ok b) = fault
note_fault fault (err e) = some (restate e)
note_fault fault panic = fault

unfoldable pub field_fault : VolumeSnapshotBackup → Option Error
field_fault vsb =
    if vsb.spec.protected_namespace == ""
    then some (Error.message "protected ns cannot be empty for volumesnapshotbackup")
    else if vsb.spec.volume_snapshot_content.name == ""
    then some (Error.message "snapshot name cannot be nil for volumesnapshotbackup")
    else none

module _ {W : Type 0} (c : Client W) (r : Reconciler) where
  -- The first pass of the validation records the start.
  unfoldable pub record_start : VolumeSnapshotBackup → Exec W Bool
  record_start vsb =
      if is_zero vsb.status.start_timestamp
      then (do
        t ← now c
        update_vsb_status c
            (record vsb { status = record (vsb.status) { start_timestamp = some t } })
        pure true)
      else pure true

  unfoldable pub conclude_validation : VolumeSnapshotBackup → Option Error → Exec W Bool
  unfolding record_start
  conclude_validation vsb none = record_start vsb
  conclude_validation vsb (some e) = do
    update_vsb_status_phase c r none VolumeSnapshotBackupPhase.failed
    fail e

  unfoldable pub validate_volume_snapshot_mover_backup : Exec W Bool
  unfolding field_fault note_fault conclude_validation
  validate_volume_snapshot_mover_backup = with_vsb c r λ vsb. do
    get_object Kind.volume_snapshot_content c.volume_snapshot_contents
        (cluster_wide vsb.spec.volume_snapshot_content.name)
    snap ← attempt (check_for_one_default_vsb_snap_class c)
    storage ← attempt (check_for_one_default_vsb_storage_class c)
    conclude_validation vsb (note_fault (note_fault (field_fault vsb) snap) storage)
