-- ===== src/Backup/Settled.antt =====
-- What Reconcile does with a backup that has completed or failed.
use volume_snapshot_mover.Prelude.{◌≡◌, none, true, false, refl, ◌∷◌, ◌||◌}
use volume_snapshot_mover.Prelude.Int.{pos, eq_ℤ}
use volume_snapshot_mover.Api.Meta.{NamespacedName}
use volume_snapshot_mover.Api.Backup.{VolumeSnapshotBackup, VolumeSnapshotBackupPhase}
use volume_snapshot_mover.Api.Backup.Phase as VsbPhase
use volume_snapshot_mover.Exec.{Kind, Call, ok, State, request, ◌>>=◌, attempt, get_state, pure}
use volume_snapshot_mover.Client.{Client, get_object}
use volume_snapshot_mover.Ctrl.{stop, on_ok}
use volume_snapshot_mover.Backup.Fetch.{get_vsb}
use volume_snapshot_mover.Backup.Reconcile.{
  is_settled, load_vsb_batch_number, handle_vsb, reconcile_fetched, on_fetched, reconcile,
}

-- The phases of a backup that has come to its end.
pub data Ended : VolumeSnapshotBackupPhase → Type 0 where
  completed : Ended VolumeSnapshotBackupPhase.completed
  failed : Ended VolumeSnapshotBackupPhase.failed
  partially_failed : Ended VolumeSnapshotBackupPhase.partially_failed

tests-of_Ended :
    (p : VolumeSnapshotBackupPhase)
    → Ended p
    → (VsbPhase.is_completed p || VsbPhase.is_failed p || VsbPhase.is_partially_failed p) ≡ true
tests-of_Ended p Ended.completed = refl
tests-of_Ended p Ended.failed = refl
tests-of_Ended p Ended.partially_failed = refl

settled-of_Ended :
    (vsb : VolumeSnapshotBackup)
    → Ended vsb.status.phase
    → vsb.meta.deletion_timestamp ≡ none
    → is_settled vsb ≡ true
unfolding is_settled
settled-of_Ended vsb ended kept = rw (kept, tests-of_Ended vsb.status.phase ended) refl

module _ {W : Type 0} (c : Client W) where
  -- A backup that has completed, failed or partially failed and is not being deleted is left alone: with a batch
  -- number known, Reconcile fetches it and stops. It writes nothing and changes no counter, so a
  -- failed backup that has a place in the batch does not give it back.
  pub reconcile-settled :
      (req : NamespacedName) (s : State W) (vsb : VolumeSnapshotBackup)
      → (c.vsbs.read req s.world).0 ≡ ok vsb
      → Ended vsb.status.phase
      → vsb.meta.deletion_timestamp ≡ none
      → eq_ℤ s.vsb_batch_number (pos 0) ≡ false
      → reconcile c req s ≡ (
        ok stop,
        record s {
          world = (c.vsbs.read req s.world).1;
          calls = Call.get Kind.volume_snapshot_backup req ∷ s.calls;
        },
      )
  unfolding reconcile get_vsb get_object request ◌>>=◌ attempt on_fetched reconcile_fetched
      load_vsb_batch_number get_state pure on_ok handle_vsb
  reconcile-settled req s vsb found ended kept known =
      rw (found, known, settled-of_Ended vsb ended kept) refl
