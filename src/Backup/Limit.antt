-- ===== src/Backup/Limit.antt =====
-- The counter of backups in processing against the batch number.
pub mod Refines
pub mod Reconcile
use volume_snapshot_mover.Prelude.Int.{pos, pos_part, ◌≤ℤ◌}
use volume_snapshot_mover.Exec.{State}

-- No more backups in processing than the batch number, if that is positive; else none.
pub record InLimit {W : Type 0} (s : State W) : Type 0 where
  pub within : s.processing_vsbs ≤ℤ pos (pos_part s.vsb_batch_number)
