-- ===== src/Backup/Server/Deleted.antt =====
-- Reconcile on a backup that is being deleted: the branch of
-- controllers/volumesnapshotbackup_controller.go that cleans up and removes the finalizer.
use volume_snapshot_mover.Prelude.{
  true, false, ◌&&◌, ◌||◌, ◌≡◌, refl, List, ◌∷◌, Bool-cases, inl, inr, arith,
}
use volume_snapshot_mover.Prelude.Int.{pos, eq_ℤ, ltb_ℤ, leb_ℤ}
use volume_snapshot_mover.Api.Meta.{NamespacedName, is_zero}
use volume_snapshot_mover.Api.Backup.{VolumeSnapshotBackup, VolumeSnapshotBackupBatchingStatus}
use volume_snapshot_mover.Api.Backup.Batching as VsbBatching
use volume_snapshot_mover.Exec.{
  Call, Result, ok, State, pure, ◌>>=◌, attempt, get_state, request, set_processing_vsbs,
}
use volume_snapshot_mover.Exec.Safe.{Safe, after-Safe, safe_rules}
use volume_snapshot_mover.Client.{Client, Reconciler, get_object, update_vsb}
use volume_snapshot_mover.Ctrl.{CtrlReturn, stop, ended_by, on_ok, dm_finalizer}
use volume_snapshot_mover.Ctrl.Answered.{after-attempt, on_answer, ends_by}
use volume_snapshot_mover.Batch.Queue.{update_vsb_batching_status, set_vsb_queue}
use volume_snapshot_mover.Backup.Fetch.{get_vsb}
use volume_snapshot_mover.Backup.Reconcile.{
  release_place, delete_vsb, is_settled, serve_vsb, handle_vsb, load_vsb_batch_number,
  reconcile_fetched, on_fetched, reconcile, reconciler_of,
}
use volume_snapshot_mover.Backup.Server.{Serves, clean-Safe, count-Safe, update_batching-Safe}

-- `v` without the finalizer.
abbrev pub unfinalized : {W : Type 0} → Client W → VolumeSnapshotBackup → VolumeSnapshotBackup
unfinalized c v = record v { meta = c.remove_finalizer v.meta dm_finalizer }

-- The latest call is the update of `v` without the finalizer, and the pass ends as the API server
-- answers it.
pub record Removed {W : Type 0} (c : Client W) (v : VolumeSnapshotBackup)
    (p : Result CtrlReturn × State W) : Type 0 where
  pub world : W
  pub earlier : List Call
  pub latest : p.1.calls ≡ Call.update_vsb (unfinalized c v) ∷ earlier
  pub moved : p.1.world ≡ (c.vsb_update (unfinalized c v) world).1
  pub over : p.0 ≡ ended_by (c.vsb_update (unfinalized c v) world).0

module _ {W : Type 0} {c : Client W} (sv : Serves false c) where
  release-Safe : (v : VolumeSnapshotBackup) → Safe {W = W} false (release_place v)
  unfolding release_place
  release-Safe v = search (safe_rules, count-Safe sv) depth 10

  last-Removed :
      (v : VolumeSnapshotBackup) (s : State W)
      → Removed c v
          ((attempt (update_vsb c (unfinalized c v)) >>= λ answer. on_ok answer (λ _. pure stop)) s)
  unfolding update_vsb request ◌>>=◌ attempt
  last-Removed v s =
      let x = unfinalized c v in
      let e =
        ends_by (c.vsb_update x s.world).0
          (record s { world = (c.vsb_update x s.world).1; calls = Call.update_vsb x ∷ s.calls }) in
      record {
        world = s.world;
        earlier = s.calls;
        latest = λ i. (e i).1.calls;
        moved = λ i. (e i).1.world;
        over = λ i. (e i).0;
      }

  delete_vsb-Removed :
      (r : Reconciler) (v : VolumeSnapshotBackup) (s : State W) → Removed c v (delete_vsb c r v s)
  unfolding delete_vsb
  delete_vsb-Removed r v s =
      after-Safe (Removed c v) _ _ s (release-Safe v)
        λ _. after-attempt (Removed c v) _ _ _ (clean-Safe sv r) λ _. last-Removed v _

module _ {W : Type 0} {c : Client W} (sv : Serves false c) (r : Reconciler)
    (v : VolumeSnapshotBackup) (s : State W) where
  -- Only a queued backup is held back, and only by a full batch.
  pub queue-passes :
      (leb_ℤ s.vsb_batch_number s.processing_vsbs && VsbBatching.is_queued v.status.batching_status)
        ≡ false
      → (set_vsb_queue c r v s).0 ≡ ok true
  unfolding set_vsb_queue pure ◌>>=◌ get_state set_processing_vsbs
  queue-passes free =
      let unset = VsbBatching.is_unset v.status.batching_status in
      let full = leb_ℤ s.vsb_batch_number s.processing_vsbs in
      let room = ltb_ℤ s.processing_vsbs s.vsb_batch_number in
      let queued = VsbBatching.is_queued v.status.batching_status in
      elim (Bool-cases (full && unset)) [
        | inl e ↦ rw e (
            after-Safe (λ p. p.0 ≡ ok true)
              (update_vsb_batching_status c r VolumeSnapshotBackupBatchingStatus.queued) _ s
              (update_batching-Safe sv r _) (λ u. refl))
        | inr e ↦ elim (Bool-cases (room && (unset || queued))) [
          | inl f ↦
              rw (e, free, f)
                (after-Safe (λ p. p.0 ≡ ok true)
                  (update_vsb_batching_status c r VolumeSnapshotBackupBatchingStatus.processing) _ s
                  (update_batching-Safe sv r _) (λ u. refl))
          | inr f ↦ rw (e, free, f) refl
        ]
      ]

  handle-Removed :
      (leb_ℤ s.vsb_batch_number s.processing_vsbs && VsbBatching.is_queued v.status.batching_status)
        ≡ false
      → is_zero v.meta.deletion_timestamp ≡ false
      → c.contains_finalizer v.meta dm_finalizer ≡ true
      → Removed c v (handle_vsb c r v s)
  unfolding handle_vsb is_settled serve_vsb
  handle-Removed free deleted final =
      let open_v : is_settled v ≡ false = rw deleted (ground arith) in
      rw (open_v, final)
        (on_answer (Removed c v) (set_vsb_queue c r v) (serve_vsb c r v) s true (queue-passes free)
          (rw deleted (delete_vsb-Removed sv r v _)))

module _ {W : Type 0} {c : Client W} (sv : Serves false c) where
  -- If the API server answers the requests for backups other than Update, Reconcile gets in one
  -- pass to the removal of the finalizer of a deleted backup: its latest call is the Update of the
  -- fetched backup without the finalizer, and the pass ends as the server answers it, without an
  -- error and without a further pass if the Update is done, and with the server's error if it is
  -- refused. This holds for a backup that has its finalizer, with the batch number known, unless
  -- the backup is queued and the batch is full.
  pub reconcile-Removed :
      (req : NamespacedName) (s : State W) (v : VolumeSnapshotBackup)
      → (c.vsbs.read req s.world).0 ≡ ok v
      → eq_ℤ s.vsb_batch_number (pos 0) ≡ false
      → (leb_ℤ s.vsb_batch_number s.processing_vsbs
          && VsbBatching.is_queued v.status.batching_status)
        ≡ false
      → is_zero v.meta.deletion_timestamp ≡ false
      → c.contains_finalizer v.meta dm_finalizer ≡ true
      → Removed c v (reconcile c req s)
  unfolding reconcile get_vsb get_object request ◌>>=◌ attempt on_fetched reconcile_fetched
      load_vsb_batch_number get_state pure on_ok
  reconcile-Removed req s v found known free deleted final =
      rw (found, known) (handle-Removed sv (reconciler_of req v) v _ free deleted final)
