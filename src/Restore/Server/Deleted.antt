-- ===== src/Restore/Server/Deleted.antt =====
-- Reconcile on a restore that is being deleted: the branch of
-- controllers/volumesnapshotrestore_controller.go that cleans up and removes the finalizer.
use volume_snapshot_mover.Prelude.{
  true, false, ◌&&◌, ◌||◌, ◌≡◌, refl, List, ◌∷◌, ◌⊎◌, Bool-cases, inl, inr, arith,
}
use volume_snapshot_mover.Prelude.Int.{pos, eq_ℤ, ltb_ℤ, leb_ℤ}
use volume_snapshot_mover.Api.Meta.{NamespacedName, ObjectMeta, is_zero}
use volume_snapshot_mover.Api.Restore.{VolumeSnapshotRestore, VolumeSnapshotRestoreBatchingStatus}
use volume_snapshot_mover.Api.Restore.Batching as VsrBatching
use volume_snapshot_mover.Exec.{
  Call, Result, ok, State, pure, ◌>>=◌, attempt, get_state, request, set_processing_vsrs,
}
use volume_snapshot_mover.Exec.Safe.{after-Safe}
use volume_snapshot_mover.Client.{Client, Reconciler, get_object, update_vsr}
use volume_snapshot_mover.Ctrl.{CtrlReturn, stop, ended_by, on_ok, dm_finalizer}
use volume_snapshot_mover.Ctrl.Answered.{after-attempt, on_answer, ends_by}
use volume_snapshot_mover.Batch.Queue.{update_vsr_batching_status, set_vsr_queue}
use volume_snapshot_mover.Restore.Fetch.{get_vsr}
use volume_snapshot_mover.Restore.Reconcile.{
  is_restore_settled, load_vsr_batch_number, delete_vsr, serve_vsr, handle_vsr, restorer_of,
  restore_fetched, on_vsr_fetched, reconcile_restore,
}
use volume_snapshot_mover.Restore.Handed.{admitted_restore}
use volume_snapshot_mover.Restore.Server.{ServesRestores, batching-Safe, clean-Safe, release-Safe}

-- `v` without the finalizer.
abbrev pub unfinalized : {W : Type 0} → Client W → VolumeSnapshotRestore → VolumeSnapshotRestore
unfinalized c v = record v { meta = c.remove_finalizer v.meta dm_finalizer }

-- The latest call is the update of a restore with the metadata `m` less the finalizer, and the
-- pass ends as the API server answers it.
pub record RestoreRemoved {W : Type 0} (c : Client W) (m : ObjectMeta)
    (p : Result CtrlReturn × State W) : Type 0 where
  pub world : W
  pub updated : VolumeSnapshotRestore
  pub earlier : List Call
  pub without : updated.meta ≡ c.remove_finalizer m dm_finalizer
  pub latest : p.1.calls ≡ Call.update_vsr updated ∷ earlier
  pub moved : p.1.world ≡ (c.vsr_update updated world).1
  pub over : p.0 ≡ ended_by (c.vsr_update updated world).0

module _ {W : Type 0} {c : Client W} (sv : ServesRestores c) where
  last-Removed :
      (v : VolumeSnapshotRestore) (s : State W)
      → RestoreRemoved c v.meta
          ((attempt (update_vsr c (unfinalized c v)) >>= λ answer. on_ok answer (λ _. pure stop)) s)
  unfolding update_vsr request ◌>>=◌ attempt
  last-Removed v s =
      let x = unfinalized c v in
      let e =
        ends_by (c.vsr_update x s.world).0
          (record s { world = (c.vsr_update x s.world).1; calls = Call.update_vsr x ∷ s.calls }) in
      record {
        world = s.world;
        updated = x;
        earlier = s.calls;
        without = refl;
        latest = λ i. (e i).1.calls;
        moved = λ i. (e i).1.world;
        over = λ i. (e i).0;
      }

  delete_vsr-Removed :
      (r : Reconciler) (v : VolumeSnapshotRestore) (s : State W)
      → RestoreRemoved c v.meta (delete_vsr c r v s)
  unfolding delete_vsr
  delete_vsr-Removed r v s =
      after-Safe (RestoreRemoved c v.meta) _ _ s (release-Safe sv v)
        λ _. after-attempt (RestoreRemoved c v.meta) _ _ _ (clean-Safe sv r) λ _. last-Removed v _

  serve-Removed :
      (r : Reconciler) (v : VolumeSnapshotRestore) (s : State W)
      → is_zero v.meta.deletion_timestamp ≡ false
      → RestoreRemoved c v.meta (serve_vsr c r (true, v) s)
  unfolding serve_vsr
  serve-Removed r v s deleted = rw deleted (delete_vsr-Removed r v s)

module _ {W : Type 0} {c : Client W} (sv : ServesRestores c) (r : Reconciler)
    (v : VolumeSnapshotRestore) (s : State W) where
  -- Only a queued restore is held back, and only by a full batch.
  queue-passes :
      (leb_ℤ s.vsr_batch_number s.processing_vsrs && VsrBatching.is_queued v.status.batching_status)
        ≡ false
      → ((set_vsr_queue c r v s).0 ≡ ok (true, v))
        ⊎ ((set_vsr_queue c r v s).0 ≡ ok (true, admitted_restore v))
  unfolding set_vsr_queue pure ◌>>=◌ get_state set_processing_vsrs
  queue-passes free =
      let unset = VsrBatching.is_unset v.status.batching_status in
      let full = leb_ℤ s.vsr_batch_number s.processing_vsrs in
      let room = ltb_ℤ s.processing_vsrs s.vsr_batch_number in
      let queued = VsrBatching.is_queued v.status.batching_status in
      elim (Bool-cases (full && unset)) [
        | inl e ↦ inl (
            rw e (
              after-Safe (λ p. p.0 ≡ ok (true, v))
                (update_vsr_batching_status c r VolumeSnapshotRestoreBatchingStatus.queued) _ s
                (batching-Safe sv r _) (λ u. refl)))
        | inr e ↦ elim (Bool-cases (room && (unset || queued))) [
          | inl f ↦ inr (
              rw (e, free, f)
                (after-Safe (λ p. p.0 ≡ ok (true, admitted_restore v))
                  (update_vsr_batching_status c r VolumeSnapshotRestoreBatchingStatus.processing) _
                  s (batching-Safe sv r _) (λ u. refl)))
          | inr f ↦ inl (rw (e, free, f) refl)
        ]
      ]

  handle-Removed :
      (leb_ℤ s.vsr_batch_number s.processing_vsrs && VsrBatching.is_queued v.status.batching_status)
        ≡ false
      → is_zero v.meta.deletion_timestamp ≡ false
      → c.contains_finalizer v.meta dm_finalizer ≡ true
      → RestoreRemoved c v.meta (handle_vsr c r v s)
  unfolding handle_vsr is_restore_settled
  handle-Removed free deleted final =
      let open_v : is_restore_settled v ≡ false = rw deleted (ground arith) in
      let Q = RestoreRemoved c v.meta in
      let queue = set_vsr_queue c r v in
      rw (open_v, final)
        (elim (queue-passes free) [
          | inl e ↦ on_answer Q queue (serve_vsr c r) s (true, v) e (serve-Removed sv r v _ deleted)
          | inr e ↦
              on_answer Q queue (serve_vsr c r) s (true, admitted_restore v) e
                (serve-Removed sv r (admitted_restore v) _ deleted)
        ])

module _ {W : Type 0} {c : Client W} (sv : ServesRestores c) where
  -- If the API server answers the requests for restores other than Update, Reconcile gets in one
  -- pass to the removal of the finalizer of a deleted restore: its latest call is the Update of the
  -- restore with the fetched metadata less the finalizer, and the pass ends as the server answers
  -- it, without an error and without a further pass if the Update is done, and with the server's
  -- error if it is refused. This holds for a restore that has its finalizer, with the batch number
  -- known, unless the restore is queued and the batch is full.
  pub reconcile_restore-Removed :
      (req : NamespacedName) (s : State W) (v : VolumeSnapshotRestore)
      → (c.vsrs.read req s.world).0 ≡ ok v
      → eq_ℤ s.vsr_batch_number (pos 0) ≡ false
      → (leb_ℤ s.vsr_batch_number s.processing_vsrs
          && VsrBatching.is_queued v.status.batching_status)
        ≡ false
      → is_zero v.meta.deletion_timestamp ≡ false
      → c.contains_finalizer v.meta dm_finalizer ≡ true
      → RestoreRemoved c v.meta (reconcile_restore c req s)
  unfolding reconcile_restore get_vsr get_object request ◌>>=◌ attempt on_vsr_fetched
      restore_fetched load_vsr_batch_number get_state pure on_ok
  reconcile_restore-Removed req s v found known free deleted final =
      rw (found, known) (handle-Removed sv (restorer_of req v) v _ free deleted final)
