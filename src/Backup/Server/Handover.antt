-- ===== src/Backup/Server/Handover.antt =====
-- A place that one backup gives back is the next one's: finish_vol_sync of
-- controllers/replicationsource.go and then setVSBQueue of controllers/common.go.
use volume_snapshot_mover.Prelude.{Bool, true, false, ◌≡◌, ◌∙◌, some, arith}
use volume_snapshot_mover.Prelude.Int.{ℤ, decr, incr-decr, ltb_ℤ}
use volume_snapshot_mover.Api.Backup.{
  VolumeSnapshotBackup, VolumeSnapshotBackupPhase, VolumeSnapshotBackupBatchingStatus,
}
use volume_snapshot_mover.Api.VolSync.{ReplicationSource, ReplicationStatus}
use volume_snapshot_mover.Exec.{
  Result, State, pure, deref, ◌>>=◌, ◌>>◌, get_state, set_processing_vsbs,
}
use volume_snapshot_mover.Exec.Counts.{SameCounts, SameCounts-refl, SameCounts-stable}
use volume_snapshot_mover.Exec.Safe.{Safe, after-Safe, safe_rules, Safe-bind, Safe-pure}
use volume_snapshot_mover.Client.{Client, Reconciler}
use volume_snapshot_mover.Batch.Queue.{update_vsb_batching_status, set_vsb_queue}
use volume_snapshot_mover.Batch.Keeps.{update_batching-Keeps}
use volume_snapshot_mover.Backup.Fetch.{get_vsb, sync_time, update_vsb_status_phase}
use volume_snapshot_mover.Backup.Status.{finish_vol_sync}
use volume_snapshot_mover.Backup.Stable.Helpers.{update_vsb_status_phase-Keeps}
use volume_snapshot_mover.Backup.Places.{waits, is_answer, set_vsb_queue-counts}
use volume_snapshot_mover.Backup.Server.{
  Serves, read-Safe, now-Safe, status-Safe, update_batching-Safe, queue-Safe,
}
use volume_snapshot_mover.Backup.Server.Released.{answered}

-- One place fewer is taken than in `s`, and the batch number is the same.
record Freed {W : Type 0} (s : State W) (p : Result Bool × State W) : Type 0 where
  pub taken : p.1.processing_vsbs ≡ decr s.processing_vsbs
  pub limit : p.1.vsb_batch_number ≡ s.vsb_batch_number

module _ {W : Type 0} where
  freed :
      {s u : State W}
      → SameCounts s u
      → Freed s ((get_state >>= λ t. set_processing_vsbs (decr t.processing_vsbs) >> pure true) u)
  unfolding ◌>>=◌ get_state set_processing_vsbs pure
  freed e = record { taken = λ i. decr (e.vsbs i); limit = e.vsb_batch }

decr-below : (a : ℤ) → ltb_ℤ (decr a) a ≡ true
decr-below a = ground arith

module _ {W : Type 0} {c : Client W} (sv : Serves false c) (r : Reconciler)
    (source : ReplicationSource) (status : ReplicationStatus)
    (synced : source.status ≡ some status) where
  status_of-Safe : Safe {W = W} false (deref source.status)
  unfolding deref
  status_of-Safe = rw synced (search safe_rules)

  phase-Safe :
      (phase : VolumeSnapshotBackupPhase)
      → Safe {W = W} false (update_vsb_status_phase c r (some source) phase)
  unfolding update_vsb_status_phase sync_time get_vsb
  phase-Safe phase = Safe-bind _ _ (read-Safe sv r.req) λ v. Safe-bind _ _ (now-Safe sv) λ t.
      Safe-bind _ _ (Safe-bind _ _ status_of-Safe (λ u. Safe-pure u.last_sync_time))
        λ last. Safe-bind _ _ (status-Safe sv _) (λ w. Safe-pure tt)

  finish-Freed : (s : State W) → Freed s (finish_vol_sync c r source s)
  unfolding finish_vol_sync
  finish-Freed s =
      let done = VolumeSnapshotBackupBatchingStatus.completed in
      let moved = VolumeSnapshotBackupPhase.vol_sync_completed in
      let t = (update_vsb_batching_status c r done s).1 in
      let u = (update_vsb_status_phase c r (some source) moved t).1 in
      let same_t =
        (update_batching-Keeps (SameCounts-stable s) c r done).at s (SameCounts-refl s) in
      let same_u =
        (update_vsb_status_phase-Keeps (SameCounts-stable s) c r (some source) moved).at t same_t in
      after-Safe (Freed s) (update_vsb_batching_status c r done) _ s
        (update_batching-Safe sv r done)
        λ _.
          after-Safe (Freed s) (update_vsb_status_phase c r (some source) moved) _ t
            (phase-Safe moved) λ _. freed same_u

  -- If the API server answers the requests for backups, then with a full batch a place is handed
  -- over: once setStatusFromRepSource has ended the processing of one backup, the next pass
  -- through the queue of a backup `v` that waits is answered and makes the batch full again.
  pub finish-admits :
      (r' : Reconciler) (v : VolumeSnapshotBackup) (s : State W)
      → waits v ≡ true
      → s.processing_vsbs ≡ s.vsb_batch_number
      → (let next = set_vsb_queue c r' v (finish_vol_sync c r source s).1 in
          is_answer next.0 ≡ true × next.1.processing_vsbs ≡ s.vsb_batch_number)
  finish-admits r' v s waiting full =
      let t = (finish_vol_sync c r source s).1 in
      let f = finish-Freed s in
      let given = answered _ ((queue-Safe sv r' v).at t) in
      let written =
        answered _
          ((update_batching-Safe sv r' VolumeSnapshotBackupBatchingStatus.processing).at t) in
      let room : ltb_ℤ t.processing_vsbs t.vsb_batch_number ≡ true =
        rw (f.taken, f.limit, full) (decr-below s.vsb_batch_number) in
      (
        given,
        set_vsb_queue-counts c r' v t
            ∙ rw (room, waiting, written, f.taken, full) (incr-decr s.vsb_batch_number),
      )
