-- ===== src/Backup/Guard/Reconcile.antt =====
-- Every deletion by the backup controller comes after the mark of its backup.
use volume_snapshot_mover.Prelude.{String, refl, List, [], ◌∷◌}
use volume_snapshot_mover.Api.Meta.{NamespacedName}
use volume_snapshot_mover.Api.Backup.{VolumeSnapshotBackup, VolumeSnapshotBackupPhase}
use volume_snapshot_mover.Exec.{Kind, State, request, ◌>>=◌}
use volume_snapshot_mover.Exec.Keeps.{Keeps, Keeps-pure, Keeps-bind, Keeps-through, keeps_rules}
use volume_snapshot_mover.Exec.Stable.{update_vsb_status-Keeps}
use volume_snapshot_mover.Client.{Client, Reconciler, update_vsb_status, delete_all_of}
use volume_snapshot_mover.Backup.Stable.Helpers.{get_vsb-Keeps}
use volume_snapshot_mover.Backup.Stable.Reconcile.{reconcile-Keeps}
use volume_snapshot_mover.Backup.Cleanup.{
  cleanup_vsb_types, finish_cleanup, remove_backup_resources, with_phase, delete_backup_kinds,
  clean_backup_resources,
}
use volume_snapshot_mover.Backup.Reconcile.{reconcile}
use volume_snapshot_mover.Backup.Limit.Refines.{reconcile_all}
use volume_snapshot_mover.Backup.Guard.{
  Marked, Guarded, IsGuarded, IsReady, IsGuarded-stable, IsReady-stable,
}
use volume_snapshot_mover.Backup.Stable.Counters.{
  CounterFree, queue-Keeps, status-Keeps, release-Keeps, load-Keeps,
}

module _ {W : Type 0} (c : Client W) where
  delete-IsReady :
      (k : Kind) (label name namespace : String)
      → Keeps (IsReady name namespace) (delete_all_of c k label name namespace)
  unfolding delete_all_of request
  delete-IsReady k label name namespace = record {
    at = λ s h. record {
      marked = Marked.there h.marked;
      guarded = Guarded.deletion h.marked h.guarded;
    };
  }

  delete_kinds-IsReady :
      (v : VolumeSnapshotBackup) (kinds : List Kind)
      → Keeps (IsReady v.meta.name v.spec.protected_namespace) (delete_backup_kinds c v kinds)
  unfolding delete_backup_kinds
  delete_kinds-IsReady v [] = Keeps-pure tt
  delete_kinds-IsReady v (k ∷ kinds) =
      Keeps-bind _ _ (delete-IsReady k _ _ _) (λ _. delete_kinds-IsReady v kinds)

  mark-IsReady :
      (v : VolumeSnapshotBackup) (s : State W)
      → IsGuarded s
      → IsReady v.meta.name v.spec.protected_namespace
          (update_vsb_status c (with_phase v VolumeSnapshotBackupPhase.cleanup) s).1
  unfolding update_vsb_status request
  mark-IsReady v s h = record {
    marked = Marked.here refl refl refl;
    guarded = Guarded.plain refl h.guarded;
  }

  finish-IsReady :
      (v marked : VolumeSnapshotBackup)
      → Keeps
          (IsReady v.meta.name v.spec.protected_namespace)
          (delete_backup_kinds c v cleanup_vsb_types >>= λ _. finish_cleanup c marked)
  unfolding finish_cleanup
  finish-IsReady v marked =
      search
        (
          IsReady-stable v.meta.name v.spec.protected_namespace,
          keeps_rules,
          delete_kinds-IsReady,
          update_vsb_status-Keeps,
        )
        depth 12

  remove-IsGuarded : (v : VolumeSnapshotBackup) → Keeps IsGuarded (remove_backup_resources c v)
  unfolding remove_backup_resources
  remove-IsGuarded v =
      Keeps-through {Q = IsReady v.meta.name v.spec.protected_namespace}
        (update_vsb_status c (with_phase v VolumeSnapshotBackupPhase.cleanup))
        (λ marked. delete_backup_kinds c v cleanup_vsb_types >>= λ _. finish_cleanup c marked)
        (mark-IsReady v) (finish-IsReady v) (λ s h. record { guarded = h.guarded })

  clean-IsGuarded : (r : Reconciler) → Keeps IsGuarded (clean_backup_resources c r)
  unfolding clean_backup_resources
  clean-IsGuarded r =
      search (IsGuarded-stable, keeps_rules, get_vsb-Keeps, remove-IsGuarded) depth 12

IsGuarded-CounterFree : {W : Type 0} → CounterFree (IsGuarded {W = W})
IsGuarded-CounterFree = record {
  counted = λ n s h. record { guarded = h.guarded };
  batched = λ v s h. record { guarded = h.guarded };
}

module _ {W : Type 0} (c : Client W) where
  reconcile-IsGuarded : (req : NamespacedName) → Keeps IsGuarded (reconcile c req)
  reconcile-IsGuarded =
      let st = IsGuarded-stable in
      let cf = IsGuarded-CounterFree in
      reconcile-Keeps st c (clean-IsGuarded c) (queue-Keeps st cf c) (status-Keeps st cf c)
        (release-Keeps st cf c) (load-Keeps st cf c)

-- Whatever the API server answers and whatever requests come: each deletion that the controller
-- asks for by a label and a namespace has before it, in the record of its calls, the status write
-- that sets the phase of the backup of that name and protected namespace to `cleanup`.
pub reconcile_all-IsGuarded :
    {W : Type 0} (c : Client W) (reqs : List NamespacedName) (s : State W)
    → IsGuarded s
    → IsGuarded (reconcile_all c reqs s)
unfolding reconcile_all
reconcile_all-IsGuarded c [] s h = h
reconcile_all-IsGuarded c (req ∷ reqs) s h =
    reconcile_all-IsGuarded c reqs _ ((reconcile-IsGuarded c req).at s h)
