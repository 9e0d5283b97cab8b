-- ===== src/Restore/Limit/Refines.antt =====
-- The restore controller moves its counter and its batch number as slots are moved.
use volume_snapshot_mover.Prelude.{
  Bool, true, false, ◌≡◌, ◌&&◌, ◌||◌, &&-left, List, [], ◌∷◌, refl, Bool-cases, inl, inr,
}
use volume_snapshot_mover.Prelude.Int.{pos, incr, decr, eq_ℤ, ltb_ℤ, leb_ℤ}
use volume_snapshot_mover.Api.Meta.{NamespacedName}
use volume_snapshot_mover.Api.Restore.{VolumeSnapshotRestore, VolumeSnapshotRestoreBatchingStatus}
use volume_snapshot_mover.Api.Restore.Batching as VsrBatching
use volume_snapshot_mover.Api.VolSync.{ReplicationDestination, ReplicationStatus}
use volume_snapshot_mover.Exec.{State, pure, ◌>>=◌, ◌>>◌, get_state, set_processing_vsrs}
use volume_snapshot_mover.Exec.Keeps.{
  Keeps, Keeps-pure, Keeps-bind, Leaves, Leaves-if, Leaves-get_state, Leaves-of_Keeps,
  Keeps-of_Leaves, keeps_rules,
}
use volume_snapshot_mover.Exec.Counts.{SameCounts-refl, SameCounts-stable}
use volume_snapshot_mover.Exec.Stable.{get_object-Keeps}
use volume_snapshot_mover.Client.{Client, Reconciler}
use volume_snapshot_mover.Batch.Values.{get_restore_batch_value}
use volume_snapshot_mover.Batch.Queue.{update_vsr_batching_status, set_vsr_queue}
use volume_snapshot_mover.Batch.Keeps.{vsr_batching-Keeps, restore_value-Keeps}
use volume_snapshot_mover.Batch.Slots.{Slots, Reach, Move}
use volume_snapshot_mover.Batch.Slots.Reached.{
  Reached, vsr_slots, VsrReached-Silent, VsrReached-Stable,
}
use volume_snapshot_mover.Batch.Slots.Counter.{vsr_down-Reached, vsr_up-Reached, vsr_store-Reached}
use volume_snapshot_mover.Restore.Fetch.{with_vsr}
use volume_snapshot_mover.Restore.Status.{
  finish_restore_sync, set_status_from_rep_dest, set_vsr_status,
}
use volume_snapshot_mover.Restore.Reconcile.{
  holds_restore_place, store_vsr_batch_number, load_vsr_batch_number, release_restore_place,
  reconcile_restore,
}
use volume_snapshot_mover.Restore.Counters.{clean_restore-Keeps}
use volume_snapshot_mover.Restore.Stable.{
  get_vsr-Keeps, vsr_phase-Keeps, from_restore-Keeps, follow-Keeps, reconcile_restore-Keeps,
}

-- The controller's life: it serves one request after another, whatever each returns.
unfoldable pub reconcile_restores :
    {W : Type 0} → Client W → List NamespacedName → State W → State W
reconcile_restores c [] s = s
reconcile_restores c (req ∷ reqs) s = reconcile_restores c reqs (reconcile_restore c req s).1

module _ {W : Type 0} (m : Slots) (c : Client W) (r : Reconciler) where
  -- The branch that admits a restore to the batch.
  admit-Reached :
      (v : VolumeSnapshotRestore) (s : State W)
      → ltb_ℤ s.processing_vsrs s.vsr_batch_number ≡ true
      → Reached vsr_slots m s
      → Leaves {A = Bool × VolumeSnapshotRestore}
          (Reached vsr_slots m)
          (update_vsr_batching_status c r VolumeSnapshotRestoreBatchingStatus.processing >>= λ _. do
            t ← get_state
            set_processing_vsrs (incr t.processing_vsrs)
            pure (
              true,
              record v {
                status = record (v.status) {
                  batching_status = VolumeSnapshotRestoreBatchingStatus.processing;
                };
              },
            ))
          s
  unfolding ◌>>=◌
  admit-Reached v s below h =
      let write = update_vsr_batching_status c r VolumeSnapshotRestoreBatchingStatus.processing in
      let (answer, s') = write s in
      record {
        left =
            vsr_up-Reached m _ (λ _. Keeps-pure _) answer s s'
              ((vsr_batching-Keeps (SameCounts-stable s) c r _).at s (SameCounts-refl s)) below h;
      }

  queued-Reached :
      (v : VolumeSnapshotRestore)
      → Keeps {A = Bool × VolumeSnapshotRestore} (Reached vsr_slots m) (
          update_vsr_batching_status c r VolumeSnapshotRestoreBatchingStatus.queued >>= λ _.
          pure (true, v))
  queued-Reached v = search (keeps_rules, vsr_batching-Keeps (VsrReached-Stable m) c r)

  queue-Reached : (v : VolumeSnapshotRestore) → Keeps (Reached vsr_slots m) (set_vsr_queue c r v)
  unfolding set_vsr_queue
  queue-Reached v =
      let unset = VsrBatching.is_unset v.status.batching_status in
      let queued = VsrBatching.is_queued v.status.batching_status in
      Keeps-of_Leaves _ λ s h.
        let full = leb_ℤ s.vsr_batch_number s.processing_vsrs in
        let room = ltb_ℤ s.processing_vsrs s.vsr_batch_number in
        Leaves-get_state _ s (
          Leaves-if (full && unset) _ _ s (λ _. Leaves-of_Keeps _ s (queued-Reached v) h)
            (λ _.
              Leaves-if (full && queued) _ _ s (λ _. Leaves-of_Keeps _ s (Keeps-pure (false, v)) h)
                (λ _.
                  Leaves-if (room && (unset || queued)) _ _ s
                    (λ e. admit-Reached v s (&&-left room (unset || queued) e) h)
                    (λ _. Leaves-of_Keeps _ s (Keeps-pure (true, v)) h))))

  finish-Reached :
      (d : ReplicationDestination) → Keeps (Reached vsr_slots m) (finish_restore_sync c r d)
  unfolding finish_restore_sync
  finish-Reached d = Keeps-bind _ _ (vsr_batching-Keeps (VsrReached-Stable m) c r _) λ _.
      Keeps-bind _ _ (vsr_phase-Keeps (VsrReached-Stable m) c r _ _)
        λ _. vsr_down-Reached m _ (λ _. Keeps-pure true)

  set_status-Reached :
      (v : VolumeSnapshotRestore) (d : ReplicationDestination) (s : ReplicationStatus)
      → Keeps (Reached vsr_slots m) (set_status_from_rep_dest c r v d s)
  unfolding set_status_from_rep_dest
  set_status-Reached v d s =
      search (VsrReached-Stable m, keeps_rules, finish-Reached, follow-Keeps) depth 16

  status-Reached : Keeps (Reached vsr_slots m) (set_vsr_status c r)
  unfolding set_vsr_status with_vsr
  status-Reached =
      search
        (
          VsrReached-Stable m,
          keeps_rules,
          set_status-Reached,
          get_vsr-Keeps,
          from_restore-Keeps,
          get_object-Keeps,
        )
        depth 16

module _ {W : Type 0} (m : Slots) where
  down-Reached :
      Keeps {W = W}
        (Reached vsr_slots m)
        (get_state >>= λ s. set_processing_vsrs (decr s.processing_vsrs))
  unfolding ◌>>=◌ get_state set_processing_vsrs
  down-Reached = record { at = λ s h. record { path = Reach.next h.path (Move.release refl) } }

  release-Reached :
      (v : VolumeSnapshotRestore) → Keeps {W = W} (Reached vsr_slots m) (release_restore_place v)
  unfolding release_restore_place ◌>>=◌ get_state
  release-Reached v = record {
    at = λ s h. elim (Bool-cases (holds_restore_place v)) [
      | inl e ↦ rw e (down-Reached.at s h)
      | inr e ↦ rw e h
    ];
  }

module _ {W : Type 0} (m : Slots) (c : Client W) where
  load-Reached :
      (v : VolumeSnapshotRestore) → Keeps (Reached vsr_slots m) (load_vsr_batch_number c v)
  unfolding load_vsr_batch_number ◌>>=◌
  load-Reached v = Keeps-of_Leaves _ λ s h. Leaves-get_state _ s (
      Leaves-if (eq_ℤ s.vsr_batch_number (pos 0)) _ _ s (λ e. fill s h e)
        (λ _. Leaves-of_Keeps _ s (Keeps-pure tt) h))
    where
      fill :
          (s : State W)
          → Reached vsr_slots m s
          → eq_ℤ s.vsr_batch_number (pos 0) ≡ true
          → Leaves
              (Reached vsr_slots m)
              (get_restore_batch_value c v.spec.protected_namespace >>= store_vsr_batch_number)
              s
      fill s h e =
          let ns = v.spec.protected_namespace in
          let (answer, s') = get_restore_batch_value c ns s in
          let same = (restore_value-Keeps (SameCounts-stable s) c ns).at s (SameCounts-refl s) in
          record { left = vsr_store-Reached m answer s s' same e h }

  pub reconcile_restore-Reached :
      (req : NamespacedName) → Keeps (Reached vsr_slots m) (reconcile_restore c req)
  reconcile_restore-Reached =
      reconcile_restore-Keeps (VsrReached-Stable m) c (clean_restore-Keeps (VsrReached-Silent m) c)
        (queue-Reached m c) (status-Reached m c) (release-Reached m) load-Reached

all-Reached :
    {W : Type 0} (m : Slots) (c : Client W) (reqs : List NamespacedName) (s : State W)
    → Reached vsr_slots m s
    → Reached vsr_slots m (reconcile_restores c reqs s)
unfolding reconcile_restores
all-Reached m c [] s h = h
all-Reached m c (req ∷ reqs) s h =
    all-Reached m c reqs _ ((reconcile_restore-Reached m c req).at s h)

-- Whatever the API server answers, and whatever requests come in what order, the counter of
-- restores and their batch number change only as slots do: the number is set, to a 64-bit integer,
-- while it is zero, a place is taken only where there is room, and places are given back.
pub reconcile_restores-Reach :
    {W : Type 0} (c : Client W) (reqs : List NamespacedName) (s : State W)
    → Reach (vsr_slots s) (vsr_slots (reconcile_restores c reqs s))
reconcile_restores-Reach c reqs s =
    (all-Reached (vsr_slots s) c reqs s (record { path = Reach.here })).path
