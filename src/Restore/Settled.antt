-- ===== src/Restore/Settled.antt =====
-- What Reconcile does with a restore that has completed or failed.
use volume_snapshot_mover.Prelude.{◌≡◌, none, true, false, refl, ◌∷◌, ◌||◌}
use volume_snapshot_mover.Prelude.Int.{pos, eq_ℤ}
use volume_snapshot_mover.Api.Meta.{NamespacedName}
use volume_snapshot_mover.Api.Restore.{VolumeSnapshotRestore, VolumeSnapshotRestorePhase}
use volume_snapshot_mover.Api.Restore.Phase as VsrPhase
use volume_snapshot_mover.Exec.{Kind, Call, ok, State, request, ◌>>=◌, attempt, get_state, pure}
use volume_snapshot_mover.Client.{Client, get_object}
use volume_snapshot_mover.Ctrl.{stop, on_ok}
use volume_snapshot_mover.Restore.Fetch.{get_vsr}
use volume_snapshot_mover.Restore.Reconcile.{
  is_restore_settled, load_vsr_batch_number, handle_vsr, restore_fetched, on_vsr_fetched,
  reconcile_restore,
}

-- The phases of a restore that has come to its end.
pub data RestoreEnded : VolumeSnapshotRestorePhase → Type 0 where
  completed : RestoreEnded VolumeSnapshotRestorePhase.completed
  failed : RestoreEnded VolumeSnapshotRestorePhase.failed
  partially_failed : RestoreEnded VolumeSnapshotRestorePhase.partially_failed

tests-of_RestoreEnded :
    (p : VolumeSnapshotRestorePhase)
    → RestoreEnded p
    → (VsrPhase.is_completed p || VsrPhase.is_failed p || VsrPhase.is_partially_failed p) ≡ true
tests-of_RestoreEnded p RestoreEnded.completed = refl
tests-of_RestoreEnded p RestoreEnded.failed = refl
tests-of_RestoreEnded p RestoreEnded.partially_failed = refl

settled-of_RestoreEnded :
    (vsr : VolumeSnapshotRestore)
    → RestoreEnded vsr.status.phase
    → vsr.meta.deletion_timestamp ≡ none
    → is_restore_settled vsr ≡ true
unfolding is_restore_settled
settled-of_RestoreEnded vsr ended kept =
    rw (kept, tests-of_RestoreEnded vsr.status.phase ended) refl

module _ {W : Type 0} (c : Client W) where
  -- A restore that has completed, failed or partially failed and is not being deleted is left alone: with a batch
  -- number known, Reconcile fetches it and stops. It writes nothing and changes no counter, so a
  -- failed restore that has a place in the batch does not give it back.
  pub reconcile_restore-settled :
      (req : NamespacedName) (s : State W) (vsr : VolumeSnapshotRestore)
      → (c.vsrs.read req s.world).0 ≡ ok vsr
      → RestoreEnded vsr.status.phase
      → vsr.meta.deletion_timestamp ≡ none
      → eq_ℤ s.vsr_batch_number (pos 0) ≡ false
      → reconcile_restore c req s ≡ (
        ok stop,
        record s {
          world = (c.vsrs.read req s.world).1;
          calls = Call.get Kind.volume_snapshot_restore req ∷ s.calls;
        },
      )
  unfolding reconcile_restore get_vsr get_object request ◌>>=◌ attempt on_vsr_fetched
      restore_fetched load_vsr_batch_number get_state pure on_ok handle_vsr
  reconcile_restore-settled req s vsr found ended kept known =
      rw (found, known, settled-of_RestoreEnded vsr ended kept) refl
