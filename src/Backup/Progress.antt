-- ===== src/Backup/Progress.antt =====
-- The condition from which the status steps read progress and failure.
use volume_snapshot_mover.Prelude.{
  String, Bool, ◌≡◌, refl, true, false, List, [], ◌∷◌, ◌==◌, eq_iff, if◌then◌else◌, not, ◌&&◌,
}
use volume_snapshot_mover.Api.Meta.{Condition, no_condition, is_true}
use volume_snapshot_mover.Api.Backup.{VolumeSnapshotBackup}
use volume_snapshot_mover.Api.VolSync.{ReplicationSource}
use volume_snapshot_mover.Exec.{Result, ok, err, panic, State, Exec, pure, deref, ◌>>=◌, resume}
use volume_snapshot_mover.Client.{Client, Reconciler}
use volume_snapshot_mover.Backup.Status.{
  last_false, last_with_reason, is_rep_source_completed, marks_done, finish_vol_sync,
  mark_in_progress, name_source, set_status_from_rep_source,
}

-- What is kept behind one condition.
pick :
    (b : Bool) (error : String) (condition kept : Condition)
    → (b ≡ true → (condition.reason == error) ≡ false)
    → (kept.reason == error) ≡ false
    → ((if b then condition else kept).reason == error) ≡ false
pick true error condition kept other h = other refl
pick false error condition kept other h = h

kept_reason :
    (reason error : String) (cs : List Condition) (kept : Condition)
    → (reason == error) ≡ false
    → (kept.reason == error) ≡ false
    → ((last_with_reason reason cs kept).reason == error) ≡ false
unfolding last_with_reason
kept_reason reason error [] kept other h = h
kept_reason reason error (condition ∷ cs) kept other h =
    kept_reason reason error cs (if condition.reason == reason then condition else kept) other (
      pick (condition.reason == reason) error condition kept
        (λ e. rw ((eq_iff condition.reason reason).0 e) other) h)

progress_reason :
    (reason error : String) (cs : List Condition)
    → (reason == error) ≡ false
    → ("" == error) ≡ false
    → ((last_with_reason reason cs no_condition).reason == error) ≡ false
progress_reason reason error cs other nonempty =
    kept_reason reason error cs no_condition other nonempty

module _ {W A B : Type 0} where
  resume-ext :
      (a : Result A) (f g : A → Exec W B) (s : State W)
      → ((x : A) (t : State W) → f x t ≡ g x t)
      → resume a f s ≡ resume a g s
  resume-ext (ok x) f g s h = h x s
  resume-ext (err e) f g s h = refl
  resume-ext panic f g s h = refl

  bind-ext :
      (m : Exec W A) (f g : A → Exec W B) (s : State W)
      → ((x : A) (t : State W) → f x t ≡ g x t)
      → (m >>= f) s ≡ (m >>= g) s
  unfolding ◌>>=◌
  bind-ext m f g s h = let (a, t) = m s in resume-ext a f g t h

module _ {W : Type 0} (c : Client W) (r : Reconciler) where
  -- setStatusFromRepSource without its branch for a failed sync.
  unfoldable pub status_without_failure : VolumeSnapshotBackup → ReplicationSource → Exec W Bool
  status_without_failure given rep_source = do
    let vsb = name_source c r given rep_source
    done ← is_rep_source_completed c vsb
    status ← deref rep_source.status
    let finished = last_false status.conditions no_condition
    let progress = last_with_reason c.synchronizing_reason_sync status.conditions no_condition
    trigger ← deref rep_source.spec.trigger
    if marks_done c.condition_synchronizing trigger done finished vsb.status.phase
        then finish_vol_sync c r rep_source
        else if not done && is_true progress.status
        then mark_in_progress c r vsb status
        else pure false

  -- If the reason of an error and the reason of a running sync differ, and the former is not empty,
  -- the branch of setStatusFromRepSource that marks a backup as failed is never taken: whatever
  -- conditions the ReplicationSource has and whatever the API server answers, the function does
  -- what it would do without that branch.
  pub set_status_from_rep_source-without_failure :
      (given : VolumeSnapshotBackup) (rep_source : ReplicationSource) (s : State W)
      → (c.synchronizing_reason_sync == c.synchronizing_reason_error) ≡ false
      → ("" == c.synchronizing_reason_error) ≡ false
      → set_status_from_rep_source c r given rep_source s
        ≡ status_without_failure given rep_source s
  unfolding set_status_from_rep_source status_without_failure
  set_status_from_rep_source-without_failure given rep_source s other nonempty =
      bind-ext _ _ _ s λ done t. bind-ext _ _ _ t λ status u. bind-ext _ _ _ u λ trigger w.
        rw
          (progress_reason c.synchronizing_reason_sync c.synchronizing_reason_error
            status.conditions other nonempty)
          refl
