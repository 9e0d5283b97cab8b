-- ===== src/Restore/Fetch.antt =====
-- What the steps of the restore controller share: the fetch of the object, the names of the
-- objects that belong to it, and updateVSRStatusPhase of controllers/common.go.
use volume_snapshot_mover.Prelude.{String, Bool, true, Option, none, some, concat}
use volume_snapshot_mover.Api.Meta.{Time, NamespacedName}
use volume_snapshot_mover.Api.Restore.{VolumeSnapshotRestore, VolumeSnapshotRestorePhase}
use volume_snapshot_mover.Api.VolSync.{ReplicationDestination}
use volume_snapshot_mover.Security.{override}
use volume_snapshot_mover.Exec.{Kind, Exec, pure, deref, ◌>>=◌, ◌>>◌, or_missing}
use volume_snapshot_mover.Client.{Client, Reconciler, get_object, update_vsr_status, now}

-- The time of the last sync of a destination, if one is given.
unfoldable pub destination_sync_time :
    {W : Type 0} → Option ReplicationDestination → Exec W (Option Time)
destination_sync_time none = pure none
destination_sync_time (some rep_dest) = do
  status ← deref rep_dest.status
  pure status.last_sync_time

module _ {W : Type 0} (c : Client W) (r : Reconciler) where
  unfoldable pub get_vsr : Exec W VolumeSnapshotRestore
  get_vsr = get_object Kind.volume_snapshot_restore c.vsrs r.req

  -- The head of the steps: a missing object ends the step with `true`.
  unfoldable pub with_vsr : (VolumeSnapshotRestore → Exec W Bool) → Exec W Bool
  unfolding get_vsr
  with_vsr f = or_missing get_vsr (pure true) f

  unfoldable pub update_vsr_status_phase :
      Option ReplicationDestination → VolumeSnapshotRestorePhase → Exec W Unit
  unfolding get_vsr destination_sync_time
  update_vsr_status_phase rep_dest phase = do
    vsr ← get_vsr
    t ← now c
    last ← destination_sync_time rep_dest
    update_vsr_status c (record vsr {
      status = record (vsr.status) {
        phase = phase;
        completion_timestamp = some t;
        replication_destination_data = record (vsr.status.replication_destination_data) {
          completion_timestamp =
              override last vsr.status.replication_destination_data.completion_timestamp;
        };
      };
    })
    pure tt

abbrev pub vsr_protected : VolumeSnapshotRestore → String → NamespacedName
vsr_protected vsr name = record { namespace = vsr.spec.protected_namespace; name = name }

abbrev pub destination_name : VolumeSnapshotRestore → String
destination_name vsr = concat vsr.meta.name "-rep-dest"

abbrev pub vsr_secret_name : VolumeSnapshotRestore → String
vsr_secret_name vsr = concat vsr.meta.name "-secret"
