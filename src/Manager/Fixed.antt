-- ===== src/Manager/Fixed.antt =====
-- The batch numbers of controllers/common.go are read once in the life of the process.
use volume_snapshot_mover.Prelude.{◌≡◌, false, List}
use volume_snapshot_mover.Prelude.Int.{pos, eq_ℤ}
use volume_snapshot_mover.Exec.{State}
use volume_snapshot_mover.Client.{Client}
use volume_snapshot_mover.Batch.Slots.{Reach-fixed}
use volume_snapshot_mover.Manager.Requests.{Request, serve_all}
use volume_snapshot_mover.Manager.Slots.{serve_all-Reach}

-- Once the two batch numbers are not zero they stay as they are, whatever requests of the two
-- controllers come and whatever the API server answers, a deployment with other numbers included.
pub serve_all-fixed :
    {W : Type 0} (c : Client W) (qs : List Request) (s : State W)
    → eq_ℤ s.vsb_batch_number (pos 0) ≡ false
    → eq_ℤ s.vsr_batch_number (pos 0) ≡ false
    → (serve_all c qs s).vsb_batch_number ≡ s.vsb_batch_number
      × (serve_all c qs s).vsr_batch_number ≡ s.vsr_batch_number
serve_all-fixed c qs s b r =
    let (h, k) = serve_all-Reach c qs s in (Reach-fixed _ _ h b, Reach-fixed _ _ k r)
