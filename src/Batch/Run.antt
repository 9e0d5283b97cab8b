-- ===== src/Batch/Run.antt =====
-- ReconcileBatch of controllers/common.go
use volume_snapshot_mover.Prelude.{Bool, true, List, [], ◌∷◌, if◌then◌else◌}
use volume_snapshot_mover.Exec.{Exec, pure, ◌>>=◌}

-- `func(logr.Logger) (bool, error)`
abbrev pub ReconcileFunc : Type 0 → Type 0
ReconcileFunc W = Exec W Bool

unfoldable pub reconcile_batch : {W : Type 0} → List (ReconcileFunc W) → Exec W Bool
reconcile_batch [] = pure true
reconcile_batch (f ∷ fs) = do cont ← f; if cont then reconcile_batch fs else pure cont
