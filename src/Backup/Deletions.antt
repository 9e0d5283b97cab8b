-- ===== src/Backup/Deletions.antt =====
-- The requests of CleanBackupResources of controllers/cleanup.go, in the record of the calls.
use volume_snapshot_mover.Prelude.{◌≡◌, true, List, [], ◌∷◌, Bool, if◌then◌else◌}
use volume_snapshot_mover.Secret.Keys.{vsb_label}
use volume_snapshot_mover.Api.Meta.{is_zero}
use volume_snapshot_mover.Api.Backup.{VolumeSnapshotBackup, VolumeSnapshotBackupPhase}
use volume_snapshot_mover.Api.Backup.Phase as VsbPhase
use volume_snapshot_mover.Exec.{Error, Kind, Call, Result, ok, err, panic, State, Exec}
use volume_snapshot_mover.Client.{Client, delete_all_of}
use volume_snapshot_mover.Backup.Cleanup.{with_phase}

-- The deletion of a backup's resources of one kind.
abbrev pub deletion : VolumeSnapshotBackup → Kind → Call
deletion vsb k = Call.delete_all_of k vsb_label vsb.meta.name vsb.spec.protected_namespace

-- The six deletions of a clean-up, the latest first, on top of the calls before.
abbrev pub six_deletions : VolumeSnapshotBackup → List Call → List Call
six_deletions vsb before =
    deletion vsb Kind.secret
    ∷ deletion vsb Kind.volume_snapshot_content
    ∷ deletion vsb Kind.volume_snapshot
    ∷ deletion vsb Kind.pod
    ∷ deletion vsb Kind.persistent_volume_claim
    ∷ deletion vsb Kind.replication_source
    ∷ before

-- The calls of a clean-up behind the guards, on top of those `before`: the mark, the deletions and,
-- if the object `marked` that the server answered the mark with is not being deleted, the write of
-- the phase Completed into it.
abbrev pub clean_up_calls : (vsb marked : VolumeSnapshotBackup) → List Call → List Call
clean_up_calls vsb marked before =
    let deleted =
      six_deletions vsb
        (Call.status_vsb (with_phase vsb VolumeSnapshotBackupPhase.cleanup) ∷ before) in
    if is_zero marked.meta.deletion_timestamp
    then Call.status_vsb (with_phase marked VolumeSnapshotBackupPhase.completed) ∷ deleted
    else deleted

-- Whether a request was answered, without the answer.
abbrev pub forget : {A : Type 0} → Result A → Result Unit
forget (ok a) = ok tt
forget (err e) = err e
forget panic = panic

-- The API server ends a write of a status, or a deletion for `vsb`, with `x`.
pub data Refuses {W : Type 0} (c : Client W) (vsb : VolumeSnapshotBackup) (x : Result Unit)
    : Type 0 where
  on_status :
      (v : VolumeSnapshotBackup) (w : W) → forget (c.vsb_status_update v w).0 ≡ x → Refuses c vsb x
  on_deletion :
      (k : Kind) (w : W)
      → forget (c.delete_matching k vsb_label vsb.meta.name vsb.spec.protected_namespace w).0 ≡ x
      → Refuses c vsb x

-- The run answers true, behind these calls, or it ends in an error or a panic with which the server
-- has answered it.
pub data Cleaned {W : Type 0} (c : Client W) (vsb : VolumeSnapshotBackup) (w : W)
    (before : List Call) : Result Bool × State W → Type 0 where
  through :
      (marked : VolumeSnapshotBackup) (s : State W)
      → (c.vsb_status_update (with_phase vsb VolumeSnapshotBackupPhase.cleanup) w).0 ≡ ok marked
      → s.calls ≡ clean_up_calls vsb marked before
      → Cleaned c vsb w before (ok true, s)
  failed : (e : Error) (s : State W) → Refuses c vsb (err e) → Cleaned c vsb w before (err e, s)
  crashed : (s : State W) → Refuses c vsb panic → Cleaned c vsb w before (panic, s)

-- The deletions of a list of kinds.
unfoldable pile : VolumeSnapshotBackup → List Kind → List Call → List Call
pile vsb [] before = before
pile vsb (k ∷ kinds) before = pile vsb kinds (deletion vsb k ∷ before)
