-- ===== src/Manager/Requests.antt =====
-- main.go registers the two reconcilers with one manager: the requests of the two queues reach
-- them in any order, each handled as a whole.
use volume_snapshot_mover.Prelude.{List, [], ◌∷◌}
use volume_snapshot_mover.Api.Meta.{NamespacedName}
use volume_snapshot_mover.Exec.{State}
use volume_snapshot_mover.Client.{Client}
use volume_snapshot_mover.Backup.Reconcile.{reconcile}
use volume_snapshot_mover.Restore.Reconcile.{reconcile_restore}

pub data Request : Type 0 where
  backup restore : NamespacedName → Request

-- What a request leaves behind, whatever it returns to the manager.
unfoldable pub serve : {W : Type 0} → Client W → Request → State W → State W
serve c (Request.backup req) s = (reconcile c req s).1
serve c (Request.restore req) s = (reconcile_restore c req s).1

unfoldable pub serve_all : {W : Type 0} → Client W → List Request → State W → State W
serve_all c [] s = s
serve_all c (q ∷ qs) s = serve_all c qs (serve c q s)
