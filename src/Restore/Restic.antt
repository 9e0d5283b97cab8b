-- ===== src/Restore/Restic.antt =====
-- CreateVSRResticSecret of controllers/restic.go
use volume_snapshot_mover.Prelude.{Bool, true, none, some, ◌==◌, if◌then◌else◌}
use volume_snapshot_mover.Secret.Keys.{vsr_label}
use volume_snapshot_mover.Secret.Validate.{validate_restic_secret}
use volume_snapshot_mover.Secret.Build.{no_policy, populate_restic_secret}
use volume_snapshot_mover.Api.Restore.{VolumeSnapshotRestorePhase}
use volume_snapshot_mover.Exec.{Error, Kind, Exec, pure, fail, ◌>>=◌, ◌>>◌, from_result}
use volume_snapshot_mover.Client.{Client, Reconciler, get_object, create_or_update}
use volume_snapshot_mover.Backup.Restic.{build_in_place}
use volume_snapshot_mover.Restore.Fetch.{
  with_vsr, update_vsr_status_phase, vsr_protected, vsr_secret_name,
}

module _ {W : Type 0} (c : Client W) (r : Reconciler) where
  unfoldable pub create_vsr_restic_secret : Exec W Bool
  create_vsr_restic_secret = with_vsr c r λ vsr.
      if vsr.spec.restic_secret_ref == ""
      then (do
        update_vsr_status_phase c r none VolumeSnapshotRestorePhase.failed
        fail (Error.message "restic secret name cannot be empty"))
      else (do
        restic_secret ←
            get_object Kind.secret c.secrets (record {
              namespace = r.namespaced_name.namespace;
              name = vsr.spec.restic_secret_ref;
            })
        from_result (validate_restic_secret (some restic_secret))
        create_or_update Kind.secret c.secrets (vsr_protected vsr (vsr_secret_name vsr))
            (populate_restic_secret vsr.meta.name vsr.spec.protected_namespace vsr_label)
            (build_in_place restic_secret vsr.spec.volume_snapshot_mover_backupref.restic_repository
              "" no_policy "")
        pure true)
