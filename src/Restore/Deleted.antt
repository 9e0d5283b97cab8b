-- ===== src/Restore/Deleted.antt =====
-- The places that a deleted restore takes and gives back: setVSRQueue of controllers/common.go and
-- the branch for deleted restores in controllers/volumesnapshotrestore_controller.go.
use volume_snapshot_mover.Prelude.{
  Bool, true, false, ◌≡◌, refl, ◌∙◌, Bool-cases, inl, inr, if◌then◌else◌, arith, ap, sym,
}
use volume_snapshot_mover.Prelude.Int.{ℤ, incr, decr, decr-incr, incr-decr, ltb_ℤ, leb_ℤ}
use volume_snapshot_mover.Api.Meta.{is_zero}
use volume_snapshot_mover.Api.Restore.{VolumeSnapshotRestore, VolumeSnapshotRestoreBatchingStatus}
use volume_snapshot_mover.Exec.{
  Result, ok, State, pure, ◌>>=◌, attempt, settle, resume, get_state, set_processing_vsrs,
}
use volume_snapshot_mover.Exec.Keeps.{Keeps, Leaves, Leaves-bind, keeps_rules}
use volume_snapshot_mover.Exec.Counts.{SameCounts-refl, SameCounts-stable}
use volume_snapshot_mover.Exec.Silent.{Silent, Stable-of_Silent}
use volume_snapshot_mover.Exec.Stable.{update_vsr-Keeps}
use volume_snapshot_mover.Client.{Client, Reconciler}
use volume_snapshot_mover.Ctrl.{on_ok, dm_finalizer}
use volume_snapshot_mover.Restore.Handed.{
  restore_waits, admitted_restore, Writes, Handed, set_vsr_queue-Handed,
}
use volume_snapshot_mover.Batch.Queue.{update_vsr_batching_status, set_vsr_queue}
use volume_snapshot_mover.Batch.Keeps.{vsr_batching-Keeps}
use volume_snapshot_mover.Backup.Stable.Reconcile.{on_ok-Keeps}
use volume_snapshot_mover.Restore.Counters.{clean_restore-Keeps}
use volume_snapshot_mover.Restore.Reconcile.{
  is_restore_settled, holds_restore_place, release_restore_place, add_vsr_finalizer, delete_vsr,
  serve_vsr, handle_vsr,
}

-- The counter of restores in processing is `n`.
record Counts {W : Type 0} (n : ℤ) (s : State W) : Type 0 where
  pub counted : s.processing_vsrs ≡ n

Counts-Silent : {W : Type 0} (n : ℤ) → Silent {W = W} (Counts n)
Counts-Silent n = record {
  logged = λ k w s h. record { counted = h.counted };
  moved = λ w s h. record { counted = h.counted };
  refilled = λ v s h. record { counted = h.counted };
}

module _ {W : Type 0} (n : ℤ) where
  branch-Counts :
      (b : Bool) (s : State W)
      → s.processing_vsrs ≡ (if b then incr n else n)
      → Leaves
          (Counts n)
          (get_state >>= λ t. if b then set_processing_vsrs (decr t.processing_vsrs) else pure tt)
          s
  unfolding ◌>>=◌ get_state set_processing_vsrs pure
  branch-Counts true s h = record { left = record { counted = ap decr h ∙ decr-incr n } }
  branch-Counts false s h = record { left = record { counted = h } }

  released-Counts :
      (v : VolumeSnapshotRestore) (s : State W)
      → s.processing_vsrs ≡ (if holds_restore_place v then incr n else n)
      → Leaves (Counts n) (release_restore_place v) s
  unfolding release_restore_place
  released-Counts v s h = branch-Counts (holds_restore_place v) s h

module _ {W : Type 0} (n : ℤ) (c : Client W) (r : Reconciler) where
  delete-Counts :
      (v : VolumeSnapshotRestore) (s : State W)
      → s.processing_vsrs ≡ (if holds_restore_place v then incr n else n)
      → Leaves (Counts n) (delete_vsr c r v) s
  unfolding delete_vsr
  delete-Counts v s h = Leaves-bind _ _ s (released-Counts n v s h) λ _.
      search
        (
          Stable-of_Silent (Counts-Silent n),
          keeps_rules,
          on_ok-Keeps,
          clean_restore-Keeps (Counts-Silent n),
          update_vsr-Keeps,
        )
        depth 16

  finalizer-Counts : (v : VolumeSnapshotRestore) → Keeps (Counts n) (add_vsr_finalizer c v)
  unfolding add_vsr_finalizer
  finalizer-Counts v =
      search (Stable-of_Silent (Counts-Silent n), keeps_rules, on_ok-Keeps, update_vsr-Keeps) depth
        12

  serve-Counts :
      (v : VolumeSnapshotRestore) (s : State W)
      → is_zero v.meta.deletion_timestamp ≡ false
      → s.processing_vsrs ≡ (if holds_restore_place v then incr n else n)
      → Leaves (Counts n) (serve_vsr c r (true, v)) s
  unfolding serve_vsr
  serve-Counts v s deleted h = rw deleted (delete-Counts v s h)

  kept-of_write :
      (b : VolumeSnapshotRestoreBatchingStatus) (s t : State W) (a : Result Unit)
      → update_vsr_batching_status c r b s ≡ (a, t)
      → t.processing_vsrs ≡ s.processing_vsrs
  kept-of_write b s t a e =
      sym (ap (λ p. p.1.processing_vsrs) e)
      ∙ ((vsr_batching-Keeps (SameCounts-stable s) c r b).at s (SameCounts-refl s)).vsrs

  served-Counts :
      (v : VolumeSnapshotRestore) (s : State W)
      → is_zero v.meta.deletion_timestamp ≡ false
      → restore_waits v ≡ true
      → s.processing_vsrs ≡ n
      → (p : Result (Bool × VolumeSnapshotRestore) × State W) → Handed c r v s p
      → (let (x, s) = settle p.0 p.1 in
          Leaves (Counts n) (resume x (λ y. on_ok y (serve_vsr c r))) s)
  unfolding on_ok serve_vsr pure holds_restore_place
  served-Counts v s deleted waiting h p (Handed.passed other) = absurd (cc)
  served-Counts v s deleted waiting h p (Handed.refused full queued) = record {
    left = record { counted = h };
  }
  served-Counts v s deleted waiting h p (Handed.noted t (Writes.queued full unset) e) = record {
    left = (serve-Counts v t deleted (kept-of_write _ s t _ e ∙ rw unset h)).left;
  }
  served-Counts v s deleted waiting h p (Handed.admitted t writes e) = record {
    left =
        (serve-Counts (admitted_restore v) _ deleted (ap incr (kept-of_write _ s t _ e ∙ h))).left;
  }
  served-Counts v s deleted waiting h p (Handed.failed b x t writes e) = record {
    left = record { counted = kept-of_write b s t _ e ∙ h };
  }
  served-Counts v s deleted waiting h p (Handed.crashed b t writes e) = record {
    left = record { counted = kept-of_write b s t _ e ∙ h };
  }

module _ {W : Type 0} (c : Client W) (r : Reconciler) (v : VolumeSnapshotRestore)
    (s : State W) where
  waiting-same :
      restore_waits v ≡ true
      → is_zero v.meta.deletion_timestamp ≡ false
      → (handle_vsr c r v s).1.processing_vsrs ≡ s.processing_vsrs
  unfolding handle_vsr is_restore_settled ◌>>=◌ attempt
  waiting-same waiting deleted =
      let n = s.processing_vsrs in
      let open_v : is_restore_settled v ≡ false = rw deleted (ground arith) in
      elim (Bool-cases (c.contains_finalizer v.meta dm_finalizer)) [
        | inl e ↦
            rw (open_v, e)
              (served-Counts n c r v s deleted waiting refl (set_vsr_queue c r v s)
                (set_vsr_queue-Handed c r v s)).left.counted
        | inr e ↦
            rw (open_v, e) ((finalizer-Counts n c r v).at s (record { counted = refl })).counted
      ]

  module _ (held : v.status.batching_status ≡ VolumeSnapshotRestoreBatchingStatus.processing) where
    queue-passed : set_vsr_queue c r v s ≡ (ok (true, v), s)
    unfolding set_vsr_queue ◌>>=◌ get_state pure
    queue-passed = elim (Bool-cases (leb_ℤ s.vsr_batch_number s.processing_vsrs)) [
      | inl e ↦ elim (Bool-cases (ltb_ℤ s.processing_vsrs s.vsr_batch_number)) [
        | inl f ↦ rw (held, e, f) refl
        | inr f ↦ rw (held, e, f) refl
      ]
      | inr e ↦ elim (Bool-cases (ltb_ℤ s.processing_vsrs s.vsr_batch_number)) [
        | inl f ↦ rw (held, e, f) refl
        | inr f ↦ rw (held, e, f) refl
      ]
    ]

    processing-decr :
        is_zero v.meta.deletion_timestamp ≡ false
        → c.contains_finalizer v.meta dm_finalizer ≡ true
        → (handle_vsr c r v s).1.processing_vsrs ≡ decr s.processing_vsrs
    unfolding handle_vsr is_restore_settled ◌>>=◌ attempt on_ok holds_restore_place
    processing-decr deleted final =
        let open_v : is_restore_settled v ≡ false = rw deleted (ground arith) in
        let n = decr s.processing_vsrs in
        rw (open_v, final, queue-passed)
          (serve-Counts n c r v s deleted
            (rw held (sym (incr-decr s.processing_vsrs)))).left.counted

-- A pass of Reconcile, behind the batch number, for a deleted restore that waits for a place leaves
-- the counter of restores as it was, whatever the API server answers. But a further pass for the
-- restore as it is stored then, `w`, that finds it in processing and with its finalizer, as where
-- the server has refused the last Update of the pass before, gives a place back again: the two
-- passes leave the counter one lower.
pub handle_vsr-again :
    {W : Type 0} (c : Client W) (r : Reconciler) (v w : VolumeSnapshotRestore) (s : State W)
    → restore_waits v ≡ true
    → is_zero v.meta.deletion_timestamp ≡ false
    → w.status.batching_status ≡ VolumeSnapshotRestoreBatchingStatus.processing
    → is_zero w.meta.deletion_timestamp ≡ false
    → c.contains_finalizer w.meta dm_finalizer ≡ true
    → (handle_vsr c r v s).1.processing_vsrs ≡ s.processing_vsrs
      × (handle_vsr c r w (handle_vsr c r v s).1).1.processing_vsrs ≡ decr s.processing_vsrs
handle_vsr-again c r v w s waiting deleted held deleted' final =
    let first = waiting-same c r v s waiting deleted in
    (first, processing-decr c r w (handle_vsr c r v s).1 held deleted' final ∙ ap decr first)
