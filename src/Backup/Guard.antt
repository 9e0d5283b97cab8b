-- ===== src/Backup/Guard.antt =====
-- Deletions in the record of the calls: each has a mark in front of it.
pub mod Reconcile
use volume_snapshot_mover.Prelude.{String, ◌≡◌, refl, true, List, [], ◌∷◌}
use volume_snapshot_mover.Api.Backup.{VolumeSnapshotBackup, VolumeSnapshotBackupPhase}
use volume_snapshot_mover.Exec.{Kind, Call, State}
use volume_snapshot_mover.Exec.Stable.{Stable, is_plain}

-- Among the calls there is a status write that sets the phase of the backup of that name and
-- protected namespace to `cleanup`.
pub data Marked (name namespace : String) : List Call → Type 0 where
  here :
      {vsb : VolumeSnapshotBackup} {cs : List Call}
      → vsb.status.phase ≡ VolumeSnapshotBackupPhase.cleanup
      → vsb.meta.name ≡ name
      → vsb.spec.protected_namespace ≡ namespace
      → Marked name namespace (Call.status_vsb vsb ∷ cs)
  there : {k : Call} {cs : List Call} → Marked name namespace cs → Marked name namespace (k ∷ cs)

-- Every deletion of objects has, before it, the mark of the backup whose label it deletes by.
pub data Guarded : List Call → Type 0 where
  empty : Guarded []
  plain : {k : Call} {cs : List Call} → is_plain k ≡ true → Guarded cs → Guarded (k ∷ cs)
  deletion :
      {k : Kind} {label name namespace : String} {cs : List Call}
      → Marked name namespace cs
      → Guarded cs
      → Guarded (Call.delete_all_of k label name namespace ∷ cs)

pub record IsGuarded {W : Type 0} (s : State W) : Type 0 where
  pub guarded : Guarded s.calls

-- Guarded, with the mark of one backup made.
pub record IsReady {W : Type 0} (name namespace : String) (s : State W) : Type 0 where
  pub marked : Marked name namespace s.calls
  pub guarded : Guarded s.calls

pub IsGuarded-stable : {W : Type 0} → Stable (IsGuarded {W = W})
IsGuarded-stable = record {
  recorded = λ k w s e h. record { guarded = plain e h.guarded };
  moved = λ w s h. record { guarded = h.guarded };
  refilled = λ v s h. record { guarded = h.guarded };
}

pub IsReady-stable :
    {W : Type 0} (name namespace : String) → Stable (IsReady {W = W} name namespace)
IsReady-stable name namespace = record {
  recorded = λ k w s e h. record { marked = there h.marked; guarded = plain e h.guarded };
  moved = λ w s h. record { marked = h.marked; guarded = h.guarded };
  refilled = λ v s h. record { marked = h.marked; guarded = h.guarded };
}
