-- ===== src/Restore/Guard.antt =====
-- Deletions in the record of the calls: each has a mark in front of it.
pub mod Reconcile
use volume_snapshot_mover.Prelude.{String, ◌≡◌, refl, true, List, [], ◌∷◌}
use volume_snapshot_mover.Api.Restore.{VolumeSnapshotRestore, VolumeSnapshotRestorePhase}
use volume_snapshot_mover.Exec.{Kind, Call, State}
use volume_snapshot_mover.Exec.Stable.{Stable, is_plain}

-- Among the calls there is a status write that sets the phase of the restore of that name and
-- protected namespace to `cleanup`.
pub data RestoreMarked (name namespace : String) : List Call → Type 0 where
  here :
      {vsr : VolumeSnapshotRestore} {cs : List Call}
      → vsr.status.phase ≡ VolumeSnapshotRestorePhase.cleanup
      → vsr.meta.name ≡ name
      → vsr.spec.protected_namespace ≡ namespace
      → RestoreMarked name namespace (Call.status_vsr vsr ∷ cs)
  there :
      {k : Call} {cs : List Call}
      → RestoreMarked name namespace cs
      → RestoreMarked name namespace (k ∷ cs)

-- Every deletion of objects has, before it, the mark of the restore whose label it deletes by.
pub data RestoreGuarded : List Call → Type 0 where
  empty : RestoreGuarded []
  plain :
      {k : Call} {cs : List Call} → is_plain k ≡ true → RestoreGuarded cs → RestoreGuarded (k ∷ cs)
  deletion :
      {k : Kind} {label name namespace : String} {cs : List Call}
      → RestoreMarked name namespace cs
      → RestoreGuarded cs
      → RestoreGuarded (Call.delete_all_of k label name namespace ∷ cs)

pub record IsRestoreGuarded {W : Type 0} (s : State W) : Type 0 where
  pub guarded : RestoreGuarded s.calls

-- RestoreGuarded, with the mark of one restore made.
pub record IsRestoreReady {W : Type 0} (name namespace : String) (s : State W) : Type 0 where
  pub marked : RestoreMarked name namespace s.calls
  pub guarded : RestoreGuarded s.calls

pub IsRestoreGuarded-stable : {W : Type 0} → Stable (IsRestoreGuarded {W = W})
IsRestoreGuarded-stable = record {
  recorded = λ k w s e h. record { guarded = plain e h.guarded };
  moved = λ w s h. record { guarded = h.guarded };
  refilled = λ v s h. record { guarded = h.guarded };
}

pub IsRestoreReady-stable :
    {W : Type 0} (name namespace : String) → Stable (IsRestoreReady {W = W} name namespace)
IsRestoreReady-stable name namespace = record {
  recorded = λ k w s e h. record { marked = there h.marked; guarded = plain e h.guarded };
  moved = λ w s h. record { marked = h.marked; guarded = h.guarded };
  refilled = λ v s h. record { marked = h.marked; guarded = h.guarded };
}
