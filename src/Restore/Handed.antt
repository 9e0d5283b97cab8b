-- ===== src/Restore/Handed.antt =====
-- What setVSRQueue of controllers/common.go hands over: its answer, the batching status of the
-- caller's object, which it sets too, the counter and the write behind them.
use volume_snapshot_mover.Prelude.{
  Bool, true, false, ◌&&◌, ◌||◌, ◌≡◌, refl, Bool-cases, inl, inr, arith,
}
use volume_snapshot_mover.Prelude.Int.{incr, ltb_ℤ, leb_ℤ}
use volume_snapshot_mover.Api.Restore.{VolumeSnapshotRestore, VolumeSnapshotRestoreBatchingStatus}
use volume_snapshot_mover.Api.Restore.Batching as VsrBatching
use volume_snapshot_mover.Exec.{
  Error, Result, ok, err, panic, State, pure, ◌>>=◌, ◌>>◌, resume, get_state, set_processing_vsrs,
}
use volume_snapshot_mover.Client.{Client, Reconciler}
use volume_snapshot_mover.Batch.Queue.{update_vsr_batching_status, set_vsr_queue}

-- A restore that has not been in the batch.
unfoldable pub restore_waits : VolumeSnapshotRestore → Bool
restore_waits v =
    VsrBatching.is_unset v.status.batching_status || VsrBatching.is_queued v.status.batching_status

abbrev pub admitted_restore : VolumeSnapshotRestore → VolumeSnapshotRestore
admitted_restore v = record v {
  status = record (v.status) { batching_status = VolumeSnapshotRestoreBatchingStatus.processing };
}

-- The batching status that the queue writes: Queued for a restore without one that finds the batch
-- full, Processing for a restore that waits and finds room.
pub data Writes {W : Type 0} (v : VolumeSnapshotRestore) (s : State W)
    : VolumeSnapshotRestoreBatchingStatus → Type 0 where
  queued :
      leb_ℤ s.vsr_batch_number s.processing_vsrs ≡ true
      → VsrBatching.is_unset v.status.batching_status ≡ true
      → Writes v s VolumeSnapshotRestoreBatchingStatus.queued
  processing :
      ltb_ℤ s.processing_vsrs s.vsr_batch_number ≡ true
      → restore_waits v ≡ true
      → Writes v s VolumeSnapshotRestoreBatchingStatus.processing

-- What the queue may hand over, from the state `s`.
pub data Handed {W : Type 0} (c : Client W) (r : Reconciler) (v : VolumeSnapshotRestore)
    (s : State W) : Result (Bool × VolumeSnapshotRestore) × State W → Type 0 where
  passed : restore_waits v ≡ false → Handed c r v s (ok (true, v), s)
  refused :
      leb_ℤ s.vsr_batch_number s.processing_vsrs ≡ true
      → VsrBatching.is_queued v.status.batching_status ≡ true
      → Handed c r v s (ok (false, v), s)
  noted :
      (t : State W)
      → Writes v s VolumeSnapshotRestoreBatchingStatus.queued
      → update_vsr_batching_status c r VolumeSnapshotRestoreBatchingStatus.queued s ≡ (ok tt, t)
      → Handed c r v s (ok (true, v), t)
  admitted :
      (t : State W)
      → Writes v s VolumeSnapshotRestoreBatchingStatus.processing
      → update_vsr_batching_status c r VolumeSnapshotRestoreBatchingStatus.processing s ≡ (ok tt, t)
      → Handed c r v s
          (ok (true, admitted_restore v), record t { processing_vsrs = incr t.processing_vsrs })
  failed :
      (b : VolumeSnapshotRestoreBatchingStatus) (e : Error) (t : State W)
      → Writes v s b
      → update_vsr_batching_status c r b s ≡ (err e, t)
      → Handed c r v s (err e, t)
  crashed :
      (b : VolumeSnapshotRestoreBatchingStatus) (t : State W)
      → Writes v s b
      → update_vsr_batching_status c r b s ≡ (panic, t)
      → Handed c r v s (panic, t)

module _ {W : Type 0} (c : Client W) (r : Reconciler) (v : VolumeSnapshotRestore)
    (s : State W) where
  noted-Handed :
      (p : Result Unit × State W)
      → Writes v s VolumeSnapshotRestoreBatchingStatus.queued
      → update_vsr_batching_status c r VolumeSnapshotRestoreBatchingStatus.queued s ≡ p
      → Handed c r v s (resume p.0 (λ _. pure (true, v)) p.1)
  unfolding pure
  noted-Handed (ok u, t) writes e = Handed.noted t writes e
  noted-Handed (err x, t) writes e = Handed.failed _ x t writes e
  noted-Handed (panic, t) writes e = Handed.crashed _ t writes e

  admitted-Handed :
      (p : Result Unit × State W)
      → Writes v s VolumeSnapshotRestoreBatchingStatus.processing
      → update_vsr_batching_status c r VolumeSnapshotRestoreBatchingStatus.processing s ≡ p
      → Handed c r v s (
          resume p.0
            (λ _. get_state >>= λ t.
              set_processing_vsrs (incr t.processing_vsrs) >> pure (true, admitted_restore v))
            p.1)
  unfolding pure ◌>>=◌ get_state set_processing_vsrs
  admitted-Handed (ok u, t) writes e = Handed.admitted t writes e
  admitted-Handed (err x, t) writes e = Handed.failed _ x t writes e
  admitted-Handed (panic, t) writes e = Handed.crashed _ t writes e

  -- On every branch the queue hands over one of these: a restore that has been in the batch, as it
  -- is, with nothing written; the refusal of a queued restore by a full batch, with nothing
  -- written; a restore without a batching status, as it is, once Queued has been written, if the
  -- batch is full; a restore that waits, with the status Processing, once that has been written and
  -- the counter raised by one, if there is room; or the error or the panic of that write, without
  -- a change of the counter behind it.
  pub set_vsr_queue-Handed : Handed c r v s (set_vsr_queue c r v s)
  unfolding set_vsr_queue ◌>>=◌ get_state pure restore_waits
  set_vsr_queue-Handed =
      let unset = VsrBatching.is_unset v.status.batching_status in
      let queued = VsrBatching.is_queued v.status.batching_status in
      let full = leb_ℤ s.vsr_batch_number s.processing_vsrs in
      let room = ltb_ℤ s.processing_vsrs s.vsr_batch_number in
      elim (Bool-cases (full && unset)) [
        | inl e ↦ rw e (noted-Handed _ (Writes.queued (ground arith) (ground arith)) refl)
        | inr e ↦ elim (Bool-cases (full && queued)) [
          | inl f ↦ rw (e, f) (Handed.refused (ground arith) (ground arith))
          | inr f ↦ elim (Bool-cases (room && (unset || queued))) [
            | inl g ↦
                rw (e, f, g)
                  (admitted-Handed _ (Writes.processing (ground arith) (ground arith)) refl)
            | inr g ↦ rw (e, f, g) (Handed.passed (ground arith))
          ]
        ]
      ]
