-- ===== src/Backup/Places.antt =====
-- Who is given a place in the batch.
use volume_snapshot_mover.Prelude.{◌≡◌, refl, Bool, true, false, ◌&&◌, ◌||◌, if◌then◌else◌, arith}
use volume_snapshot_mover.Prelude.Int.{incr, ltb_ℤ, leb_ℤ}
use volume_snapshot_mover.Api.Backup.{VolumeSnapshotBackup, VolumeSnapshotBackupBatchingStatus}
use volume_snapshot_mover.Api.Backup.Batching as VsbBatching
use volume_snapshot_mover.Exec.{
  Result, ok, err, panic, State, Exec, pure, ◌>>=◌, ◌>>◌, resume, get_state, set_processing_vsbs,
}
use volume_snapshot_mover.Exec.Counts.{SameCounts, SameCounts-refl, SameCounts-stable}
use volume_snapshot_mover.Client.{Client, Reconciler}
use volume_snapshot_mover.Batch.Queue.{update_vsb_batching_status, set_vsb_queue}
use volume_snapshot_mover.Batch.Keeps.{update_batching-Keeps}

-- A backup that has not been in the batch.
unfoldable pub waits : VolumeSnapshotBackup → Bool
waits vsb =
    VsbBatching.is_unset vsb.status.batching_status
    || VsbBatching.is_queued vsb.status.batching_status

abbrev pub is_answer : {A : Type 0} → Result A → Bool
is_answer (ok a) = true
is_answer (err e) = false
is_answer panic = false

-- `m` counts one more backup if `k` holds; else it leaves the counter.
record Gives {W A : Type 0} (k : Bool) (m : Exec W A) (s : State W) : Type 0 where
  pub given : (m s).1.processing_vsbs ≡ (if k then incr s.processing_vsbs else s.processing_vsbs)

and-first : (a b d : Bool) → (a && b) ≡ true → (a && b && d) ≡ d
and-first true true d h = refl
and-first true false d h = ground arith
and-first false b d h = ground arith

and-fails : (a b d : Bool) → (a && b) ≡ false → (a && b && d) ≡ false
and-fails true true d h = ground arith
and-fails true false d h = refl
and-fails false b d h = refl

module _ {W : Type 0} where
  Gives-if :
      (b k : Bool) (m n : Exec W Bool) (s : State W)
      → (b ≡ true → Gives k m s)
      → (b ≡ false → Gives k n s)
      → Gives k (if b then m else n) s
  Gives-if true k m n s hm hn = hm refl
  Gives-if false k m n s hm hn = hn refl

  Gives-eq : (k j : Bool) (m : Exec W Bool) (s : State W) → k ≡ j → Gives j m s → Gives k m s
  Gives-eq k j m s e h = rw e h

  Gives-get_state :
      (k : Bool) (f : State W → Exec W Bool) (s : State W)
      → Gives k (f s) s
      → Gives k (get_state >>= f) s
  unfolding ◌>>=◌ get_state
  Gives-get_state k f s h = record { given = h.given }

  Gives-pure : (b : Bool) (s : State W) → Gives false (pure b) s
  unfolding pure
  Gives-pure b s = record { given = refl }

  resume-gives-none :
      (a : Result Unit) (s s' : State W)
      → SameCounts s s'
      → (resume a (λ _. pure true) s').1.processing_vsbs ≡ s.processing_vsbs
  unfolding pure
  resume-gives-none (ok u) s s' e = e.vsbs
  resume-gives-none (err x) s s' e = e.vsbs
  resume-gives-none panic s s' e = e.vsbs

  count_up : Unit {0} → Exec W Bool
  count_up u = do t ← get_state; set_processing_vsbs (incr t.processing_vsbs); pure true

  resume-gives-one :
      (a : Result Unit) (s s' : State W)
      → SameCounts s s'
      → (resume a count_up s').1.processing_vsbs
        ≡ (if is_answer a then incr s.processing_vsbs else s.processing_vsbs)
  unfolding count_up ◌>>=◌ get_state set_processing_vsbs pure
  resume-gives-one (ok u) s s' e = λ i. incr (e.vsbs i)
  resume-gives-one (err x) s s' e = e.vsbs
  resume-gives-one panic s s' e = e.vsbs

module _ {W : Type 0} (c : Client W) (r : Reconciler) where
  same :
      (b : VolumeSnapshotBackupBatchingStatus) (s : State W)
      → SameCounts s (update_vsb_batching_status c r b s).1
  same b s = (update_batching-Keeps (SameCounts-stable s) c r b).at s (SameCounts-refl s)

  queued-Gives :
      (s : State W)
      → Gives false
          (update_vsb_batching_status c r VolumeSnapshotBackupBatchingStatus.queued >>= λ _.
            pure true)
          s
  unfolding ◌>>=◌
  queued-Gives s = record {
    given = resume-gives-none _ s _ (same VolumeSnapshotBackupBatchingStatus.queued s);
  }

  admitted-Gives :
      (s : State W)
      → Gives
          (is_answer
            (update_vsb_batching_status c r VolumeSnapshotBackupBatchingStatus.processing s).0)
          (update_vsb_batching_status c r VolumeSnapshotBackupBatchingStatus.processing
            >>= count_up)
          s
  unfolding ◌>>=◌
  admitted-Gives s = record {
    given = resume-gives-one _ s _ (same VolumeSnapshotBackupBatchingStatus.processing s);
  }

  queue-Gives :
      (vsb : VolumeSnapshotBackup) (s : State W)
      → Gives
          (ltb_ℤ s.processing_vsbs s.vsb_batch_number
            && waits vsb
            && is_answer
                (update_vsb_batching_status c r VolumeSnapshotBackupBatchingStatus.processing s).0)
          (set_vsb_queue c r vsb)
          s
  unfolding set_vsb_queue count_up waits
  queue-Gives vsb s =
      let unset = VsbBatching.is_unset vsb.status.batching_status in
      let queued = VsbBatching.is_queued vsb.status.batching_status in
      let full = leb_ℤ s.vsb_batch_number s.processing_vsbs in
      let room = ltb_ℤ s.processing_vsbs s.vsb_batch_number in
      let written =
        is_answer
          (update_vsb_batching_status c r VolumeSnapshotBackupBatchingStatus.processing s).0 in
      Gives-get_state _ _ s (
        Gives-if (full && unset) _ _ _ s
          (λ e.
            Gives-eq _ false _ s (and-fails room (unset || queued) written (ground arith))
              (queued-Gives s))
          (λ _.
            Gives-if (full && queued) _ _ _ s
              (λ e.
                Gives-eq _ false _ s (and-fails room (unset || queued) written (ground arith))
                  (Gives-pure false s))
              (λ _.
                Gives-if (room && (unset || queued)) _ _ _ s
                  (λ e.
                    Gives-eq _ written _ s (and-first room (unset || queued) written e)
                      (admitted-Gives s))
                  (λ e.
                    Gives-eq _ false _ s (and-fails room (unset || queued) written e)
                      (Gives-pure true s)))))

  -- The queue counts a backup in exactly if it has not been in the batch, there is room, and the
  -- write of the batching status Processing, made from the same state, ends without an error or a
  -- panic; in every other case the counter stays.
  pub set_vsb_queue-counts :
      (vsb : VolumeSnapshotBackup) (s : State W)
      → (set_vsb_queue c r vsb s).1.processing_vsbs ≡ (
          if ltb_ℤ s.processing_vsbs s.vsb_batch_number
            && waits vsb
            && is_answer
                (update_vsb_batching_status c r VolumeSnapshotBackupBatchingStatus.processing s).0
          then incr s.processing_vsbs
          else s.processing_vsbs)
  set_vsb_queue-counts vsb s = (queue-Gives vsb s).given
