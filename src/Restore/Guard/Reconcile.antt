-- ===== src/Restore/Guard/Reconcile.antt =====
-- Every deletion by the restore controller comes after the mark of its restore.
use volume_snapshot_mover.Prelude.{String, refl, List, [], ◌∷◌}
use volume_snapshot_mover.Api.Meta.{NamespacedName}
use volume_snapshot_mover.Api.Restore.{VolumeSnapshotRestore, VolumeSnapshotRestorePhase}
use volume_snapshot_mover.Exec.{Kind, State, request, ◌>>=◌}
use volume_snapshot_mover.Exec.Keeps.{Keeps, Keeps-pure, Keeps-bind, Keeps-through, keeps_rules}
use volume_snapshot_mover.Exec.Stable.{update_vsr_status-Keeps}
use volume_snapshot_mover.Client.{Client, Reconciler, update_vsr_status, delete_all_of}
use volume_snapshot_mover.Restore.Cleanup.{
  cleanup_vsr_types, with_restore_phase, delete_restore_kinds, finish_restore_cleanup,
  remove_restore_resources, clean_restore_resources,
}
use volume_snapshot_mover.Restore.Reconcile.{reconcile_restore}
use volume_snapshot_mover.Restore.Stable.{get_vsr-Keeps, reconcile_restore-Keeps}
use volume_snapshot_mover.Restore.Counters.{
  RestoreCounterFree, restore_queue-Keeps, restore_status-Keeps, restore_release-Keeps,
  restore_load-Keeps,
}
use volume_snapshot_mover.Restore.Limit.Refines.{reconcile_restores}
use volume_snapshot_mover.Restore.Guard.{
  RestoreMarked, RestoreGuarded, IsRestoreGuarded, IsRestoreReady, IsRestoreGuarded-stable,
  IsRestoreReady-stable,
}

module _ {W : Type 0} (c : Client W) where
  delete-IsRestoreReady :
      (k : Kind) (label name namespace : String)
      → Keeps (IsRestoreReady name namespace) (delete_all_of c k label name namespace)
  unfolding delete_all_of request
  delete-IsRestoreReady k label name namespace = record {
    at = λ s h. record {
      marked = RestoreMarked.there h.marked;
      guarded = RestoreGuarded.deletion h.marked h.guarded;
    };
  }

  delete_kinds-IsRestoreReady :
      (v : VolumeSnapshotRestore) (kinds : List Kind)
      → Keeps
          (IsRestoreReady v.meta.name v.spec.protected_namespace)
          (delete_restore_kinds c v kinds)
  unfolding delete_restore_kinds
  delete_kinds-IsRestoreReady v [] = Keeps-pure tt
  delete_kinds-IsRestoreReady v (k ∷ kinds) =
      Keeps-bind _ _ (delete-IsRestoreReady k _ _ _) (λ _. delete_kinds-IsRestoreReady v kinds)

  mark-IsRestoreReady :
      (v : VolumeSnapshotRestore) (s : State W)
      → IsRestoreGuarded s
      → IsRestoreReady v.meta.name v.spec.protected_namespace
          (update_vsr_status c (with_restore_phase v VolumeSnapshotRestorePhase.cleanup) s).1
  unfolding update_vsr_status request
  mark-IsRestoreReady v s h = record {
    marked = RestoreMarked.here refl refl refl;
    guarded = RestoreGuarded.plain refl h.guarded;
  }

  finish-IsRestoreReady :
      (r : Reconciler) (v : VolumeSnapshotRestore)
      → Keeps
          (IsRestoreReady v.meta.name v.spec.protected_namespace)
          (delete_restore_kinds c v cleanup_vsr_types >>= λ _. finish_restore_cleanup c r)
  unfolding finish_restore_cleanup
  finish-IsRestoreReady r v =
      search
        (
          IsRestoreReady-stable v.meta.name v.spec.protected_namespace,
          keeps_rules,
          delete_kinds-IsRestoreReady,
          get_vsr-Keeps,
          update_vsr_status-Keeps,
        )
        depth 12

  remove-IsRestoreGuarded :
      (r : Reconciler) (v : VolumeSnapshotRestore)
      → Keeps IsRestoreGuarded (remove_restore_resources c r v)
  unfolding remove_restore_resources
  remove-IsRestoreGuarded r v =
      Keeps-through {Q = IsRestoreReady v.meta.name v.spec.protected_namespace}
        (update_vsr_status c (with_restore_phase v VolumeSnapshotRestorePhase.cleanup))
        (λ _. delete_restore_kinds c v cleanup_vsr_types >>= λ _. finish_restore_cleanup c r)
        (mark-IsRestoreReady v) (λ _. finish-IsRestoreReady r v)
        (λ s h. record { guarded = h.guarded })

  clean-IsRestoreGuarded : (r : Reconciler) → Keeps IsRestoreGuarded (clean_restore_resources c r)
  unfolding clean_restore_resources
  clean-IsRestoreGuarded r =
      search (IsRestoreGuarded-stable, keeps_rules, get_vsr-Keeps, remove-IsRestoreGuarded) depth 12

IsRestoreGuarded-CounterFree : {W : Type 0} → RestoreCounterFree (IsRestoreGuarded {W = W})
IsRestoreGuarded-CounterFree = record {
  counted = λ n s h. record { guarded = h.guarded };
  batched = λ v s h. record { guarded = h.guarded };
}

module _ {W : Type 0} (c : Client W) where
  reconcile-IsRestoreGuarded :
      (req : NamespacedName) → Keeps IsRestoreGuarded (reconcile_restore c req)
  reconcile-IsRestoreGuarded =
      let st = IsRestoreGuarded-stable in
      let cf = IsRestoreGuarded-CounterFree in
      reconcile_restore-Keeps st c (clean-IsRestoreGuarded c) (restore_queue-Keeps st cf c)
        (restore_status-Keeps st cf c) (restore_release-Keeps st cf c) (restore_load-Keeps st cf c)

-- Whatever the API server answers and whatever requests come: each deletion that the restore
-- controller asks for by a label and a namespace has before it, in the record of its calls, the
-- status write that sets the phase of the restore of that name and protected namespace to
-- `cleanup`.
pub reconcile_restores-IsRestoreGuarded :
    {W : Type 0} (c : Client W) (reqs : List NamespacedName) (s : State W)
    → IsRestoreGuarded s
    → IsRestoreGuarded (reconcile_restores c reqs s)
unfolding reconcile_restores
reconcile_restores-IsRestoreGuarded c [] s h = h
reconcile_restores-IsRestoreGuarded c (req ∷ reqs) s h =
    reconcile_restores-IsRestoreGuarded c reqs _ ((reconcile-IsRestoreGuarded c req).at s h)
