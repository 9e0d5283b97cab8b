-- ===== src/Ctrl/Ends.antt =====
-- How a pass of Reconcile through its steps ends: the tail of both Reconcile functions.
use volume_snapshot_mover.Prelude.{Bool, true, false, ◌≡◌, refl, Option, none, some}
use volume_snapshot_mover.Api.Backup.{VolumeSnapshotBackup}
use volume_snapshot_mover.Api.Restore.{VolumeSnapshotRestore}
use volume_snapshot_mover.Exec.{
  Error, Result, ok, err, panic, State, Exec, pure, ◌>>=◌, resume, settle, attempt,
}
use volume_snapshot_mover.Client.{Client, Reconciler}
use volume_snapshot_mover.Ctrl.{CtrlReturn, stop, requeue_later, conclude}
use volume_snapshot_mover.Batch.Run.{reconcile_batch}
use volume_snapshot_mover.Backup.Reconcile.{backup_steps, run_backup}
use volume_snapshot_mover.Backup.Status.{set_vsb_status}
use volume_snapshot_mover.Restore.Status.{set_vsr_status}
use volume_snapshot_mover.Restore.Reconcile.{restore_steps, run_restore}

abbrev pub error_of : Result Bool → Option Error
error_of (err e) = some e
error_of _ = none

-- The pass is over only where the batch answered true; else there is another after five seconds,
-- with the error that the status step ends in, from some state, if it ends in one.
pub data Ends {W : Type 0} (batch : Result Bool) (status_step : Exec W Bool)
    : Result CtrlReturn → Type 0 where
  over : batch ≡ ok true → Ends batch status_step (ok stop)
  again : (s : State W) → Ends batch status_step (ok (requeue_later (error_of (status_step s).0)))
  crashed : Ends batch status_step panic

-- The same, for the outcome of the status step.
data Concluded (batch outcome : Result Bool) : CtrlReturn → Type 0 where
  over : batch ≡ ok true → Concluded batch outcome stop
  again : Concluded batch outcome (requeue_later (error_of outcome))

conclude-Concluded :
    (batch outcome : Result Bool) → Concluded batch outcome (conclude batch outcome)
unfolding conclude
conclude-Concluded batch (err e) = Concluded.again
conclude-Concluded batch panic = Concluded.again
conclude-Concluded batch (ok false) = Concluded.again
conclude-Concluded (ok true) (ok true) = Concluded.over refl
conclude-Concluded (ok false) (ok true) = Concluded.again
conclude-Concluded (err e) (ok true) = Concluded.again
conclude-Concluded panic (ok true) = Concluded.again

module _ {W : Type 0} (batch : Result Bool) (status_step : Exec W Bool) where
  Concluded-Ends :
      (s : State W) (x : CtrlReturn)
      → Concluded batch (status_step s).0 x
      → Ends batch status_step (ok x)
  Concluded-Ends s x (Concluded.over e) = Ends.over e
  Concluded-Ends s x Concluded.again = Ends.again s

  settled-Ends :
      {A : Type 0} (a : Result A) (s : State W) (k : Result A → Exec W CtrlReturn)
      → ((s' : State W) → Ends batch status_step (k a s').0)
      → (let (x, s') = settle a s in Ends batch status_step (resume x k s').0)
  settled-Ends (ok a) s k h = h s
  settled-Ends (err e) s k h = h s
  settled-Ends panic s k h = Ends.crashed

  -- An outcome that is looked at later ends nothing.
  attempt-Ends :
      {A : Type 0} (m : Exec W A) (k : Result A → Exec W CtrlReturn) (s : State W)
      → ((s' : State W) → Ends batch status_step (k (m s).0 s').0)
      → Ends batch status_step ((attempt m >>= k) s).0
  unfolding ◌>>=◌ attempt
  attempt-Ends m k s h = let (a, s') = m s in settled-Ends a s' k h

  tail-Ends :
      {A : Type 0} (mark : Exec W A) (s : State W)
      → Ends batch status_step
          ((attempt mark >>= λ _. attempt status_step >>= λ b. pure (conclude batch b)) s).0
  unfolding pure
  tail-Ends mark s =
      attempt-Ends mark (λ _. attempt status_step >>= λ b. pure (conclude batch b)) s
        λ t.
          attempt-Ends status_step (λ b. pure (conclude batch b)) t
            λ u. Concluded-Ends t _ (conclude-Concluded batch (status_step t).0)

module _ {W A : Type 0} where
  pass-Ends :
      (steps : Exec W Bool) (mark : Result Bool → Exec W A) (status_step : Exec W Bool)
      (s : State W)
      → Ends
          (steps s).0
          status_step
          ((attempt steps >>= λ batch.
              attempt (mark batch) >>= λ _. attempt status_step >>= λ b. pure (conclude batch b))
            s).0
  unfolding ◌>>=◌ attempt
  pass-Ends steps mark status_step s =
      let (a, t) = steps s in settled-Ends a status_step a t _ (tail-Ends a status_step (mark a))

-- A pass of either controller is over only if every step of its batch answered true without an
-- error. In every other case, a failed batch included, Reconcile asks for another pass after five
-- seconds, unless it panics, and returns with it the error that the status step ends in, from some
-- state, or no error if the status step answers or panics.
pub run-Ends :
    {W : Type 0} (c : Client W) (r : Reconciler) (vsb : VolumeSnapshotBackup)
    (vsr : VolumeSnapshotRestore) (s : State W)
    → Ends (reconcile_batch (backup_steps c r) s).0 (set_vsb_status c r) (run_backup c r vsb s).0
      × Ends
          (reconcile_batch (restore_steps c r) s).0
          (set_vsr_status c r)
          (run_restore c r vsr s).0
unfolding run_backup run_restore
run-Ends c r vsb vsr s = (
  pass-Ends (reconcile_batch (backup_steps c r)) _ (set_vsb_status c r) s,
  pass-Ends (reconcile_batch (restore_steps c r)) _ (set_vsr_status c r) s,
)
