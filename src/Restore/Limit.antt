-- ===== src/Restore/Limit.antt =====
-- The counter of restores in processing against the batch number.
pub mod Refines
pub mod Reconcile
use volume_snapshot_mover.Prelude.Int.{pos, pos_part, ◌≤ℤ◌}
use volume_snapshot_mover.Exec.{State}

-- No more restores in processing than the batch number, if that is positive; else none.
pub record InRestoreLimit {W : Type 0} (s : State W) : Type 0 where
  pub within : s.processing_vsrs ≤ℤ pos (pos_part s.vsr_batch_number)
