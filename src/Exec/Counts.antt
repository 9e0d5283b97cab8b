-- ===== src/Exec/Counts.antt =====
-- The package variables of the queues: the counters of objects in processing and the batch
-- numbers.
use volume_snapshot_mover.Prelude.{◌≡◌, refl}
use volume_snapshot_mover.Exec.{Call, Result, State, request}
use volume_snapshot_mover.Exec.Keeps.{Keeps}
use volume_snapshot_mover.Exec.Stable.{Stable}

-- `s` has the four numbers of `t`.
pub record SameCounts {W : Type 0} (t s : State W) : Type 0 where
  pub vsbs : s.processing_vsbs ≡ t.processing_vsbs
  pub vsb_batch : s.vsb_batch_number ≡ t.vsb_batch_number
  pub vsrs : s.processing_vsrs ≡ t.processing_vsrs
  pub vsr_batch : s.vsr_batch_number ≡ t.vsr_batch_number

pub SameCounts-refl : {W : Type 0} (t : State W) → SameCounts t t
SameCounts-refl t = record { vsbs = refl; vsb_batch = refl; vsrs = refl; vsr_batch = refl }

pub SameCounts-stable : {W : Type 0} (t : State W) → Stable (SameCounts t)
SameCounts-stable t = record {
  recorded = λ k w s e h. record {
    vsbs = h.vsbs;
    vsb_batch = h.vsb_batch;
    vsrs = h.vsrs;
    vsr_batch = h.vsr_batch;
  };
  moved = λ w s h. record {
    vsbs = h.vsbs;
    vsb_batch = h.vsb_batch;
    vsrs = h.vsrs;
    vsr_batch = h.vsr_batch;
  };
  refilled = λ v s h. record {
    vsbs = h.vsbs;
    vsb_batch = h.vsb_batch;
    vsrs = h.vsrs;
    vsr_batch = h.vsr_batch;
  };
}

-- Deletions leave them alone too.
pub request-counts :
    {W A : Type 0} {t : State W} (k : Call) (f : W → Result A × W)
    → Keeps (SameCounts t) (request k f)
unfolding request
request-counts k f = record {
  at = λ s h. record {
    vsbs = h.vsbs;
    vsb_batch = h.vsb_batch;
    vsrs = h.vsrs;
    vsr_batch = h.vsr_batch;
  };
}
