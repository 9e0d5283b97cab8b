-- ===== src/Backup/Waits.antt =====
-- What the steps that wait for a clone, and the check for deleted resources, can answer.
use volume_snapshot_mover.Prelude.{◌≡◌, Bool, true}
use volume_snapshot_mover.Exec.Answers.{Answers, answer_rules}
use volume_snapshot_mover.Client.{Client, Reconciler}
use volume_snapshot_mover.Api.Backup.{VolumeSnapshotBackup}
use volume_snapshot_mover.Backup.Fetch.{with_vsb, with_open_vsb}
use volume_snapshot_mover.Backup.Snapshots.{wait_for_cloned_volume_snapshot_content_to_be_ready}
use volume_snapshot_mover.Backup.Cleanup.{are_vsb_resources_deleted}

abbrev pub IsTrue : Bool → Type 0
IsTrue b = b ≡ true

module _ {W : Type 0} (c : Client W) where
  content-Answers :
      (r : Reconciler) → Answers IsTrue (wait_for_cloned_volume_snapshot_content_to_be_ready c r)
  unfolding wait_for_cloned_volume_snapshot_content_to_be_ready with_open_vsb with_vsb
  content-Answers r = search answer_rules depth 16

  deleted-Answers : (vsb : VolumeSnapshotBackup) → Answers IsTrue (are_vsb_resources_deleted c vsb)
  unfolding are_vsb_resources_deleted
  deleted-Answers vsb = search answer_rules depth 16

  -- Neither the wait for the cloned snapshot content nor the check for deleted resources ever
  -- answers false: each run of them answers true, returns an error or panics. The wait makes no
  -- batch wait for a content that is not ready, and the check never says that a resource is left.
  pub waits-IsTrue :
      (r : Reconciler) (vsb : VolumeSnapshotBackup)
      → Answers IsTrue (wait_for_cloned_volume_snapshot_content_to_be_ready c r)
        × Answers IsTrue (are_vsb_resources_deleted c vsb)
  waits-IsTrue r vsb = (content-Answers r, deleted-Answers vsb)
