-- ===== src/Manager/Slots.antt =====
-- The two queues in one process: each controller moves its own slots and leaves the other's alone.
use volume_snapshot_mover.Prelude.{List, [], ◌∷◌}
use volume_snapshot_mover.Api.Meta.{NamespacedName}
use volume_snapshot_mover.Exec.{State}
use volume_snapshot_mover.Exec.Keeps.{Keeps}
use volume_snapshot_mover.Client.{Client}
use volume_snapshot_mover.Batch.Slots.{Slots, Reach}
use volume_snapshot_mover.Batch.Slots.Reached.{
  Reached, vsb_slots, vsr_slots, VsbReached-Silent, VsbReached-Stable, VsrReached-Silent,
  VsrReached-Stable,
}
use volume_snapshot_mover.Backup.Stable.Counters.{
  CounterFree, clean_backup-Keeps, queue-Keeps, status-Keeps, release-Keeps, load-Keeps,
}
use volume_snapshot_mover.Backup.Stable.Reconcile.{reconcile-Keeps}
use volume_snapshot_mover.Backup.Reconcile.{reconcile}
use volume_snapshot_mover.Backup.Limit.Refines.{reconcile-Reached}
use volume_snapshot_mover.Restore.Counters.{
  RestoreCounterFree, clean_restore-Keeps, restore_queue-Keeps, restore_status-Keeps,
  restore_release-Keeps, restore_load-Keeps,
}
use volume_snapshot_mover.Restore.Stable.{reconcile_restore-Keeps}
use volume_snapshot_mover.Restore.Reconcile.{reconcile_restore}
use volume_snapshot_mover.Restore.Limit.Refines.{reconcile_restore-Reached}
use volume_snapshot_mover.Manager.Requests.{Request, serve, serve_all}

module _ {W : Type 0} (m : Slots) where
  VsrReached-CounterFree : CounterFree {W = W} (Reached vsr_slots m)
  VsrReached-CounterFree = record {
    counted = λ n s h. record { path = h.path };
    batched = λ v s h. record { path = h.path };
  }

  VsbReached-CounterFree : RestoreCounterFree {W = W} (Reached vsb_slots m)
  VsbReached-CounterFree = record {
    counted = λ n s h. record { path = h.path };
    batched = λ v s h. record { path = h.path };
  }

module _ {W : Type 0} (m : Slots) (c : Client W) where
  -- The backup controller leaves the restores' slots alone, and the other way round.
  reconcile-VsrReached : (req : NamespacedName) → Keeps (Reached vsr_slots m) (reconcile c req)
  reconcile-VsrReached =
      let st = VsrReached-Stable m in
      let cf = VsrReached-CounterFree m in
      reconcile-Keeps st c (clean_backup-Keeps (VsrReached-Silent m) c) (queue-Keeps st cf c)
        (status-Keeps st cf c) (release-Keeps st cf c) (load-Keeps st cf c)

  reconcile_restore-VsbReached :
      (req : NamespacedName) → Keeps (Reached vsb_slots m) (reconcile_restore c req)
  reconcile_restore-VsbReached =
      let st = VsbReached-Stable m in
      let cf = VsbReached-CounterFree m in
      reconcile_restore-Keeps st c (clean_restore-Keeps (VsbReached-Silent m) c)
        (restore_queue-Keeps st cf c) (restore_status-Keeps st cf c) (restore_release-Keeps st cf c)
        (restore_load-Keeps st cf c)

  serve-VsbReached :
      (q : Request) (s : State W) → Reached vsb_slots m s → Reached vsb_slots m (serve c q s)
  unfolding serve
  serve-VsbReached (Request.backup req) = (reconcile-Reached m c req).at
  serve-VsbReached (Request.restore req) = (reconcile_restore-VsbReached req).at

  serve-VsrReached :
      (q : Request) (s : State W) → Reached vsr_slots m s → Reached vsr_slots m (serve c q s)
  unfolding serve
  serve-VsrReached (Request.backup req) = (reconcile-VsrReached req).at
  serve-VsrReached (Request.restore req) = (reconcile_restore-Reached m c req).at

module _ {W : Type 0} (c : Client W) where
  serve_all-Reached :
      (m n : Slots) (qs : List Request) (s : State W)
      → Reached vsb_slots m s
      → Reached vsr_slots n s
      → Reached vsb_slots m (serve_all c qs s) × Reached vsr_slots n (serve_all c qs s)
  unfolding serve_all
  serve_all-Reached m n [] s h k = (h, k)
  serve_all-Reached m n (q ∷ qs) s h k =
      serve_all-Reached m n qs (serve c q s) (serve-VsbReached m c q s h)
        (serve-VsrReached n c q s k)

-- Whatever the API server answers, and however the requests of the two controllers interleave,
-- each of the two pairs of a counter and a batch number changes only as its slots do: the number
-- is set, to a 64-bit integer, while it is zero, a place is taken only where there is room, and
-- places are given back.
pub serve_all-Reach :
    {W : Type 0} (c : Client W) (qs : List Request) (s : State W)
    → Reach (vsb_slots s) (vsb_slots (serve_all c qs s))
      × Reach (vsr_slots s) (vsr_slots (serve_all c qs s))
serve_all-Reach c qs s =
    let (h, k) =
      serve_all-Reached c (vsb_slots s) (vsr_slots s) qs s (record { path = Reach.here })
        (record { path = Reach.here }) in
    (h.path, k.path)
