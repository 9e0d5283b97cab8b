-- ===== src/Backup/Server/Released.antt =====
-- The place that a deleted backup gives back: the branch for deleted backups of
-- controllers/volumesnapshotbackup_controller.go.
use volume_snapshot_mover.Prelude.{true, false, ◌≡◌, refl, ◌∙◌, ap, Bool-cases, inl, inr, arith}
use volume_snapshot_mover.Prelude.Int.{ℤ, decr, ltb_ℤ, leb_ℤ}
use volume_snapshot_mover.Api.Meta.{is_zero}
use volume_snapshot_mover.Api.Backup.{VolumeSnapshotBackup, VolumeSnapshotBackupBatchingStatus}
use volume_snapshot_mover.Exec.{
  Result, ok, err, panic, State, pure, ◌>>=◌, attempt, get_state, set_processing_vsbs,
}
use volume_snapshot_mover.Exec.Keeps.{Leaves, Leaves-bind, keeps_rules}
use volume_snapshot_mover.Exec.Silent.{Silent, Stable-of_Silent}
use volume_snapshot_mover.Exec.Safe.{allowed}
use volume_snapshot_mover.Client.{Client, Reconciler}
use volume_snapshot_mover.Ctrl.{dm_finalizer, on_ok}
use volume_snapshot_mover.Batch.Queue.{set_vsb_queue}
use volume_snapshot_mover.Backup.Stable.Reconcile.{on_ok-Keeps}
use volume_snapshot_mover.Exec.Stable.{update_vsb-Keeps}
use volume_snapshot_mover.Backup.Stable.Counters.{clean_backup-Keeps}
use volume_snapshot_mover.Backup.Places.{is_answer}
use volume_snapshot_mover.Backup.Reconcile.{
  is_settled, holds_place, release_place, delete_vsb, serve_vsb, handle_vsb,
}

-- The counter of backups in processing is `n`.
pub record Counts {W : Type 0} (n : ℤ) (s : State W) : Type 0 where
  pub counted : s.processing_vsbs ≡ n

pub Counts-Silent : {W : Type 0} (n : ℤ) → Silent {W = W} (Counts n)
Counts-Silent n = record {
  logged = λ k w s h. record { counted = h.counted };
  moved = λ w s h. record { counted = h.counted };
  refilled = λ v s h. record { counted = h.counted };
}

pub answered : {A : Type 0} (r : Result A) → allowed false r ≡ true → is_answer r ≡ true
answered (ok a) h = refl
answered (err e) h = h
answered panic h = h

-- The counter behind the release, if the backup is in processing.
module _ {W : Type 0} (c : Client W) (r : Reconciler) (v : VolumeSnapshotBackup)
    (held : v.status.batching_status ≡ VolumeSnapshotBackupBatchingStatus.processing) where
  branch-Counts : (s : State W) → Leaves (Counts (decr s.processing_vsbs)) (release_place v) s
  unfolding release_place holds_place ◌>>=◌ get_state set_processing_vsbs
  branch-Counts s = rw held (record { left = record { counted = refl } })

  delete-Counts : (s : State W) → Leaves (Counts (decr s.processing_vsbs)) (delete_vsb c r v) s
  unfolding delete_vsb
  delete-Counts s = Leaves-bind _ _ s (branch-Counts s) λ _.
      search
        (
          Stable-of_Silent (Counts-Silent (decr s.processing_vsbs)),
          keeps_rules,
          on_ok-Keeps,
          clean_backup-Keeps (Counts-Silent (decr s.processing_vsbs)),
          update_vsb-Keeps,
        )
        depth 16

  queue-passed : (s : State W) → set_vsb_queue c r v s ≡ (ok true, s)
  unfolding set_vsb_queue ◌>>=◌ get_state pure
  queue-passed s = elim (Bool-cases (leb_ℤ s.vsb_batch_number s.processing_vsbs)) [
    | inl e ↦ elim (Bool-cases (ltb_ℤ s.processing_vsbs s.vsb_batch_number)) [
      | inl f ↦ rw (held, e, f) refl
      | inr f ↦ rw (held, e, f) refl
    ]
    | inr e ↦ elim (Bool-cases (ltb_ℤ s.processing_vsbs s.vsb_batch_number)) [
      | inl f ↦ rw (held, e, f) refl
      | inr f ↦ rw (held, e, f) refl
    ]
  ]

  handle-decr :
      (s : State W)
      → is_zero v.meta.deletion_timestamp ≡ false
      → c.contains_finalizer v.meta dm_finalizer ≡ true
      → (handle_vsb c r v s).1.processing_vsbs ≡ decr s.processing_vsbs
  unfolding handle_vsb is_settled serve_vsb ◌>>=◌ attempt on_ok
  handle-decr s deleted final =
      let open_v : is_settled v ≡ false = rw deleted (ground arith) in
      rw (open_v, final, queue-passed s, deleted) (delete-Counts s).left.counted

-- Each pass of Reconcile for a deleted backup that is in processing gives a place back, whatever
-- the API server answers: behind the batch number, two passes, for the object as it was fetched
-- each time, with its finalizer still there in the second, leave the counter two lower, though the
-- backup has taken one place.
pub handle_vsb-twice :
    {W : Type 0} (c : Client W) (r : Reconciler) (v w : VolumeSnapshotBackup) (s : State W)
    → v.status.batching_status ≡ VolumeSnapshotBackupBatchingStatus.processing
    → is_zero v.meta.deletion_timestamp ≡ false
    → c.contains_finalizer v.meta dm_finalizer ≡ true
    → w.status.batching_status ≡ VolumeSnapshotBackupBatchingStatus.processing
    → is_zero w.meta.deletion_timestamp ≡ false
    → c.contains_finalizer w.meta dm_finalizer ≡ true
    → (handle_vsb c r w (handle_vsb c r v s).1).1.processing_vsbs ≡ decr (decr s.processing_vsbs)
handle_vsb-twice c r v w s held deleted final held' deleted' final' =
    handle-decr c r w held' (handle_vsb c r v s).1 deleted' final'
    ∙ ap decr (handle-decr c r v held s deleted final)
