-- ===== src/Backup/Fetch.antt =====
-- What the steps of the backup controller share: the fetch of the object, the names of the
-- objects that belong to it, and updateVSBStatusPhase of controllers/common.go.
use volume_snapshot_mover.Prelude.{String, Bool, true, Option, none, some, concat, if◌then◌else◌}
use volume_snapshot_mover.Api.Meta.{Time, NamespacedName}
use volume_snapshot_mover.Api.Backup.{VolumeSnapshotBackup, VolumeSnapshotBackupPhase}
use volume_snapshot_mover.Api.Backup.Phase as VsbPhase
use volume_snapshot_mover.Api.VolSync.{ReplicationSource}
use volume_snapshot_mover.Security.{override}
use volume_snapshot_mover.Exec.{Kind, Exec, pure, deref, ◌>>=◌, ◌>>◌, or_missing}
use volume_snapshot_mover.Client.{Client, Reconciler, get_object, update_vsb_status, now}

module _ {W : Type 0} (c : Client W) (r : Reconciler) where
  unfoldable pub get_vsb : Exec W VolumeSnapshotBackup
  get_vsb = get_object Kind.volume_snapshot_backup c.vsbs r.req

  -- The head of every step: a missing object ends the step with `true`.
  unfoldable pub with_vsb : (VolumeSnapshotBackup → Exec W Bool) → Exec W Bool
  unfolding get_vsb
  with_vsb f = or_missing get_vsb (pure true) f

  -- The head of the steps that a completed data movement skips.
  unfoldable pub with_open_vsb : (VolumeSnapshotBackup → Exec W Bool) → Exec W Bool
  unfolding with_vsb
  with_open_vsb f =
      with_vsb (λ vsb. if VsbPhase.is_completed vsb.status.phase then pure true else f vsb)

  unfoldable pub sync_time : Option ReplicationSource → Exec W (Option Time)
  sync_time none = pure none
  sync_time (some source) = do status ← deref source.status; pure status.last_sync_time

  unfoldable pub update_vsb_status_phase :
      Option ReplicationSource → VolumeSnapshotBackupPhase → Exec W Unit
  unfolding get_vsb sync_time
  update_vsb_status_phase rep_source phase = do
    vsb ← get_vsb
    t ← now c
    last ← sync_time rep_source
    update_vsb_status c (record vsb {
      status = record (vsb.status) {
        phase = phase;
        completion_timestamp = some t;
        replication_source_data = record (vsb.status.replication_source_data) {
          completion_timestamp =
              override last vsb.status.replication_source_data.completion_timestamp;
        };
      };
    })
    pure tt

abbrev pub in_protected : VolumeSnapshotBackup → String → NamespacedName
in_protected vsb name = record { namespace = vsb.spec.protected_namespace; name = name }

abbrev pub cluster_wide : String → NamespacedName
cluster_wide name = record { namespace = ""; name = name }

abbrev pub clone_name : VolumeSnapshotBackup → String
clone_name vsb = concat vsb.spec.volume_snapshot_content.name "-clone"

abbrev pub claim_name : VolumeSnapshotBackup → String
claim_name vsb = concat vsb.spec.volume_snapshot_content.name "-pvc"

abbrev pub source_name : VolumeSnapshotBackup → String
source_name vsb = concat vsb.meta.name "-rep-src"

abbrev pub secret_name : VolumeSnapshotBackup → String
secret_name vsb = concat vsb.meta.name "-secret"

abbrev pub pod_name : VolumeSnapshotBackup → String
pod_name vsb = concat vsb.meta.name "-pod"
