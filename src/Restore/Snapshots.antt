-- ===== src/Restore/Snapshots.antt =====
-- WaitForVolSyncSnapshotContentToBeReady and getVolSyncSnapshotContent of
-- controllers/volumesnapshot.go
use volume_snapshot_mover.Prelude.{Bool, true, false, Option, none, some, if◌then◌else◌}
use volume_snapshot_mover.Api.Restore.{VolumeSnapshotRestore}
use volume_snapshot_mover.Api.Cluster.{VolumeSnapshotContent, VolumeSnapshotContentStatus}
use volume_snapshot_mover.Api.VolSync.{ReplicationStatus}
use volume_snapshot_mover.Exec.{Kind, Exec, pure, deref, ◌>>=◌, ◌>>◌, if_nil, or_missing}
use volume_snapshot_mover.Client.{Client, Reconciler, get_object, update_vsr_status}
use volume_snapshot_mover.Backup.Fetch.{cluster_wide}
use volume_snapshot_mover.Restore.Fetch.{with_vsr, vsr_protected, destination_name}

module _ {W : Type 0} (c : Client W) where
  -- The content of the latest image of a destination that has synchronized.
  unfoldable pub content_of_image :
      VolumeSnapshotRestore → ReplicationStatus → Exec W (Option VolumeSnapshotContent)
  content_of_image vsr status = do
    image ← deref status.latest_image
    vs ← get_object Kind.volume_snapshot c.volume_snapshots (vsr_protected vsr image)
    vs_status ← deref vs.status
    bound ← deref vs_status.bound_volume_snapshot_content_name
    vsc ← get_object Kind.volume_snapshot_content c.volume_snapshot_contents (cluster_wide bound)
    pure (some vsc)

  -- `none` stands for nil and for the zero object, which has no status either.
  unfoldable pub get_vol_sync_snapshot_content :
      VolumeSnapshotRestore → Exec W (Option VolumeSnapshotContent)
  unfolding content_of_image
  get_vol_sync_snapshot_content vsr =
      or_missing
        (get_object Kind.replication_destination c.replication_destinations
          (vsr_protected vsr (destination_name vsr)))
        (pure none)
        (λ rep_dest.
          if_nil rep_dest.status (pure none)
            λ status. if_nil status.last_sync_time (pure none) (λ t. content_of_image vsr status))

  -- A content that is ready and has a handle is recorded in the object.
  unfoldable pub record_content :
      VolumeSnapshotRestore → VolumeSnapshotContent → VolumeSnapshotContentStatus → Exec W Bool
  record_content vsr vsc status = do
    ready ← deref status.ready_to_use
    if ready
        then if_nil status.snapshot_handle (pure false) (λ handle. do
          update_vsr_status c (record vsr {
            status = record (vsr.status) {
              snapshot_handle = handle;
              volume_snapshot_content_name = vsc.meta.name;
            };
          })
          pure true)
        else pure false

module _ {W : Type 0} (c : Client W) (r : Reconciler) where
  unfoldable pub wait_for_vol_sync_snapshot_content_to_be_ready : Exec W Bool
  unfolding get_vol_sync_snapshot_content record_content
  wait_for_vol_sync_snapshot_content_to_be_ready = with_vsr c r λ vsr. do
    found ← get_vol_sync_snapshot_content c vsr
    if_nil found (pure false)
        λ vsc. if_nil vsc.status (pure false) (λ status. record_content c vsr vsc status)
