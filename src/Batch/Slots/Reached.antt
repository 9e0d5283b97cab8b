-- ===== src/Batch/Slots/Reached.antt =====
-- The queues of the two controllers, seen as slots.

use volume_snapshot_mover.Exec.{State}
use volume_snapshot_mover.Exec.Counts.{SameCounts}
use volume_snapshot_mover.Exec.Stable.{Stable}
use volume_snapshot_mover.Exec.Silent.{Silent, Stable-of_Silent}
use volume_snapshot_mover.Batch.Slots.{Slots, Reach}

abbrev pub vsb_slots : {W : Type 0} → State W → Slots
vsb_slots s = record { taken = s.processing_vsbs; limit = s.vsb_batch_number }

abbrev pub vsr_slots : {W : Type 0} → State W → Slots
vsr_slots s = record { taken = s.processing_vsrs; limit = s.vsr_batch_number }

-- The state's slots, by one of the views, are reached from `m`.
pub record Reached {W : Type 0} (view : State W → Slots) (m : Slots) (s : State W) : Type 0 where
  pub path : Reach m (view s)

module _ {W : Type 0} (m : Slots) where
  pub VsbReached-Silent : Silent {W = W} (Reached vsb_slots m)
  VsbReached-Silent = record {
    logged = λ k w s h. record { path = h.path };
    moved = λ w s h. record { path = h.path };
    refilled = λ v s h. record { path = h.path };
  }

  pub VsbReached-Stable : Stable {W = W} (Reached vsb_slots m)
  VsbReached-Stable = Stable-of_Silent VsbReached-Silent

  pub VsrReached-Silent : Silent {W = W} (Reached vsr_slots m)
  VsrReached-Silent = record {
    logged = λ k w s h. record { path = h.path };
    moved = λ w s h. record { path = h.path };
    refilled = λ v s h. record { path = h.path };
  }

  pub VsrReached-Stable : Stable {W = W} (Reached vsr_slots m)
  VsrReached-Stable = Stable-of_Silent VsrReached-Silent

  pub vsb_same : (s s' : State W) → SameCounts s s' → Reached vsb_slots m s → Reached vsb_slots m s'
  vsb_same s s' e h = record { path = rw (e.vsbs, e.vsb_batch) h.path }

  pub vsr_same : (s s' : State W) → SameCounts s s' → Reached vsr_slots m s → Reached vsr_slots m s'
  vsr_same s s' e h = record { path = rw (e.vsrs, e.vsr_batch) h.path }
