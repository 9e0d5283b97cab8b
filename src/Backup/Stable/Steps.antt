-- ===== src/Backup/Stable/Steps.antt =====
-- The steps of the backup controller keep what plain requests keep.
use volume_snapshot_mover.Prelude.{String, Option, none, some, [], ◌∷◌, StringMap}
use volume_snapshot_mover.Exec.{State, Error}
use volume_snapshot_mover.Exec.Keeps.{Keeps, Keeps-bind}
use volume_snapshot_mover.Exec.Stable.{Stable}
use volume_snapshot_mover.Client.{Client, Reconciler}
use volume_snapshot_mover.Api.Backup.{VolumeSnapshotBackup}
use volume_snapshot_mover.Api.Cluster.{
  Secret, PersistentVolumeClaim, ConfigMap, ServiceAccount, VolumeSnapshot, VolumeSnapshotContent,
}
use volume_snapshot_mover.Api.VolSync.{ReplicationStatus, ReplicationSource, ResticSpec}
use volume_snapshot_mover.Backup.Validate.{
  check_for_one_default_vsb_snap_class, check_for_one_default_vsb_storage_class, record_start,
  conclude_validation, validate_volume_snapshot_mover_backup,
}
use volume_snapshot_mover.Backup.Snapshots.{
  mirror_volume_snapshot_content, mirror_volume_snapshot,
  wait_for_cloned_volume_snapshot_to_be_ready, wait_for_cloned_volume_snapshot_content_to_be_ready,
}
use volume_snapshot_mover.Backup.Claims.{
  find_source_pvc, get_source_pvc, build_pvc_clone, mirror_pvc, bind_pvc_to_dummy_pod, is_pvc_bound,
}
use volume_snapshot_mover.Backup.Status.{
  update_vsb_from_backup, is_rep_source_completed, mark_in_progress, mark_failed,
}
use volume_snapshot_mover.Backup.Restic.{make_restic_secret, create_vsb_restic_secret}
use volume_snapshot_mover.Backup.Source.Options.{
  set_cache_option, set_cache_options, configure_rep_source_restic_vol_options,
}
use volume_snapshot_mover.Backup.Source.Create.{build_replication_source, create_replication_source}
use volume_snapshot_mover.Backup.Stable.Helpers.{helper_rules}

module _ {W : Type 0} {P : State W → Type 0} (st : Stable P) (c : Client W) (r : Reconciler) where
  record_start-Keeps : (v : VolumeSnapshotBackup) → Keeps P (record_start c r v)
  unfolding record_start
  record_start-Keeps v = search helper_rules

  conclude_validation-Keeps :
      (v : VolumeSnapshotBackup) (o : Option Error) → Keeps P (conclude_validation c r v o)
  unfolding conclude_validation
  conclude_validation-Keeps v none = record_start-Keeps v
  conclude_validation-Keeps v (some e) = search helper_rules

  pub validate-Keeps : Keeps P (validate_volume_snapshot_mover_backup c r)
  unfolding validate_volume_snapshot_mover_backup check_for_one_default_vsb_snap_class
      check_for_one_default_vsb_storage_class
  validate-Keeps = search (helper_rules, conclude_validation-Keeps) depth 16

  pub mirror_content-Keeps : Keeps P (mirror_volume_snapshot_content c r)
  unfolding mirror_volume_snapshot_content
  mirror_content-Keeps = search helper_rules depth 16

  pub mirror_snapshot-Keeps : Keeps P (mirror_volume_snapshot c r)
  unfolding mirror_volume_snapshot
  mirror_snapshot-Keeps = search helper_rules depth 16

  pub wait_snapshot-Keeps : Keeps P (wait_for_cloned_volume_snapshot_to_be_ready c r)
  unfolding wait_for_cloned_volume_snapshot_to_be_ready
  wait_snapshot-Keeps = search helper_rules depth 16

  pub wait_content-Keeps : Keeps P (wait_for_cloned_volume_snapshot_content_to_be_ready c r)
  unfolding wait_for_cloned_volume_snapshot_content_to_be_ready
  wait_content-Keeps = search helper_rules depth 16

  find_source_pvc-Keeps : (v : VolumeSnapshotBackup) → Keeps P (find_source_pvc c r v)
  unfolding find_source_pvc
  find_source_pvc-Keeps v = search helper_rules depth 16

  build_pvc_clone-Keeps :
      (vs : VolumeSnapshot) (vsc : VolumeSnapshotContent) (pvc : PersistentVolumeClaim)
      → Keeps P (build_pvc_clone c r vs vsc pvc)
  unfolding build_pvc_clone get_source_pvc
  build_pvc_clone-Keeps vs vsc pvc = search (helper_rules, find_source_pvc-Keeps) depth 16

  pub mirror_pvc-Keeps : Keeps P (mirror_pvc c r)
  unfolding mirror_pvc
  mirror_pvc-Keeps = search (helper_rules, build_pvc_clone-Keeps) depth 16

  pub bind_pvc-Keeps : Keeps P (bind_pvc_to_dummy_pod c r)
  unfolding bind_pvc_to_dummy_pod
  bind_pvc-Keeps = search helper_rules depth 16

  pub is_pvc_bound-Keeps : Keeps P (is_pvc_bound c r)
  unfolding is_pvc_bound
  is_pvc_bound-Keeps = search helper_rules depth 16

  make_restic_secret-Keeps :
      (v : VolumeSnapshotBackup) (pvc : PersistentVolumeClaim) (s : Secret)
      → Keeps P (make_restic_secret c r v pvc s)
  unfolding make_restic_secret
  make_restic_secret-Keeps v pvc s = search helper_rules depth 16

  pub restic_secret-Keeps : Keeps P (create_vsb_restic_secret c r)
  unfolding create_vsb_restic_secret
  restic_secret-Keeps = search (helper_rules, make_restic_secret-Keeps) depth 16

  set_cache_option-Keeps :
      (v : VolumeSnapshotBackup) (m : StringMap String) (key : String) (o : ResticSpec)
      → Keeps P (set_cache_option c v m key o)
  unfolding set_cache_option
  set_cache_option-Keeps v m key o = search helper_rules depth 16

  set_cache_options-Keeps :
      (v : VolumeSnapshotBackup) (m rest : StringMap String) (o : ResticSpec)
      → Keeps P (set_cache_options c v m rest o)
  unfolding set_cache_options
  set_cache_options-Keeps v m [] o = search helper_rules
  set_cache_options-Keeps v m ((key, val) ∷ rest) o =
      Keeps-bind _ _ (set_cache_option-Keeps v m key o) (set_cache_options-Keeps v m rest)

  build_source-Keeps :
      (v : VolumeSnapshotBackup) (pvc : PersistentVolumeClaim) (cm : Option ConfigMap)
      (sa : ServiceAccount) (source : ReplicationSource)
      → Keeps P (build_replication_source c r v pvc cm sa source)
  unfolding build_replication_source configure_rep_source_restic_vol_options
  build_source-Keeps v pvc cm sa source = search (helper_rules, set_cache_options-Keeps) depth 16

  pub create_source-Keeps : Keeps P (create_replication_source c r)
  unfolding create_replication_source
  create_source-Keeps = search (helper_rules, build_source-Keeps) depth 16

  pub from_backup-Keeps : (v : VolumeSnapshotBackup) → Keeps P (update_vsb_from_backup c v)
  unfolding update_vsb_from_backup
  from_backup-Keeps v = search helper_rules depth 16

  pub is_rep_source_completed-Keeps :
      (v : VolumeSnapshotBackup) → Keeps P (is_rep_source_completed c v)
  unfolding is_rep_source_completed
  is_rep_source_completed-Keeps v = search helper_rules depth 16

  pub mark_in_progress-Keeps :
      (v : VolumeSnapshotBackup) (s : ReplicationStatus) → Keeps P (mark_in_progress c r v s)
  unfolding mark_in_progress
  mark_in_progress-Keeps v s = search helper_rules depth 16

  pub mark_failed-Keeps : (v : VolumeSnapshotBackup) → Keeps P (mark_failed c r v)
  unfolding mark_failed
  mark_failed-Keeps v = search helper_rules depth 16
