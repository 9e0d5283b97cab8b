-- ===== src/Backup/Limit/Refines.antt =====
-- The backup controller moves its counter and its batch number as slots are moved.
use volume_snapshot_mover.Prelude.{
  true, false, ◌≡◌, ◌&&◌, ◌||◌, &&-left, List, [], ◌∷◌, refl, Bool-cases, inl, inr,
}
use volume_snapshot_mover.Prelude.Int.{pos, incr, decr, eq_ℤ, ltb_ℤ, leb_ℤ}
use volume_snapshot_mover.Api.Meta.{NamespacedName}
use volume_snapshot_mover.Api.Backup.{VolumeSnapshotBackup, VolumeSnapshotBackupBatchingStatus}
use volume_snapshot_mover.Api.Backup.Batching as VsbBatching
use volume_snapshot_mover.Api.VolSync.{ReplicationSource}
use volume_snapshot_mover.Exec.{State, pure, ◌>>=◌, ◌>>◌, get_state, set_processing_vsbs}
use volume_snapshot_mover.Exec.Keeps.{
  Keeps, Keeps-pure, Keeps-bind, Leaves, Leaves-if, Leaves-get_state, Leaves-of_Keeps,
  Keeps-of_Leaves, keeps_rules,
}
use volume_snapshot_mover.Exec.Counts.{SameCounts-refl, SameCounts-stable}
use volume_snapshot_mover.Exec.Stable.{get_object-Keeps}
use volume_snapshot_mover.Client.{Client, Reconciler}
use volume_snapshot_mover.Batch.Values.{get_backup_batch_value}
use volume_snapshot_mover.Batch.Queue.{update_vsb_batching_status, set_vsb_queue}
use volume_snapshot_mover.Batch.Keeps.{update_batching-Keeps, get_value-Keeps}
use volume_snapshot_mover.Batch.Slots.{Slots, Reach, Move}
use volume_snapshot_mover.Batch.Slots.Reached.{
  Reached, vsb_slots, VsbReached-Silent, VsbReached-Stable,
}
use volume_snapshot_mover.Batch.Slots.Counter.{vsb_down-Reached, vsb_up-Reached, vsb_store-Reached}
use volume_snapshot_mover.Backup.Stable.Helpers.{get_vsb-Keeps, update_vsb_status_phase-Keeps}
use volume_snapshot_mover.Backup.Stable.Steps.{
  from_backup-Keeps, is_rep_source_completed-Keeps, mark_in_progress-Keeps, mark_failed-Keeps,
}
use volume_snapshot_mover.Backup.Stable.Counters.{clean_backup-Keeps}
use volume_snapshot_mover.Backup.Stable.Reconcile.{reconcile-Keeps}
use volume_snapshot_mover.Backup.Fetch.{with_vsb}
use volume_snapshot_mover.Backup.Status.{
  finish_vol_sync, set_status_from_rep_source, set_vsb_status,
}
use volume_snapshot_mover.Backup.Reconcile.{
  holds_place, store_vsb_batch_number, load_vsb_batch_number, release_place, reconcile,
}

-- The controller's life: it serves one request after another, whatever each returns.
unfoldable pub reconcile_all : {W : Type 0} → Client W → List NamespacedName → State W → State W
reconcile_all c [] s = s
reconcile_all c (req ∷ reqs) s = reconcile_all c reqs (reconcile c req s).1

module _ {W : Type 0} (m : Slots) (c : Client W) (r : Reconciler) where
  -- The branch that admits a backup to the batch.
  admit-Reached :
      (s : State W)
      → ltb_ℤ s.processing_vsbs s.vsb_batch_number ≡ true
      → Reached vsb_slots m s
      → Leaves
          (Reached vsb_slots m)
          (update_vsb_batching_status c r VolumeSnapshotBackupBatchingStatus.processing >>= λ _. do
            t ← get_state
            set_processing_vsbs (incr t.processing_vsbs)
            pure true)
          s
  unfolding ◌>>=◌
  admit-Reached s below h =
      let write = update_vsb_batching_status c r VolumeSnapshotBackupBatchingStatus.processing in
      let (answer, s') = write s in
      record {
        left =
            vsb_up-Reached m (λ _. pure true) (λ _. Keeps-pure true) answer s s'
              ((update_batching-Keeps (SameCounts-stable s) c r _).at s (SameCounts-refl s)) below
              h;
      }

  queued-Reached :
      Keeps (Reached vsb_slots m) (
        update_vsb_batching_status c r VolumeSnapshotBackupBatchingStatus.queued >>= λ _. pure true)
  queued-Reached = search (keeps_rules, update_batching-Keeps (VsbReached-Stable m) c r)

  queue-Reached : (vsb : VolumeSnapshotBackup) → Keeps (Reached vsb_slots m) (set_vsb_queue c r vsb)
  unfolding set_vsb_queue
  queue-Reached vsb =
      let unset = VsbBatching.is_unset vsb.status.batching_status in
      let queued = VsbBatching.is_queued vsb.status.batching_status in
      Keeps-of_Leaves _ λ s h.
        let full = leb_ℤ s.vsb_batch_number s.processing_vsbs in
        let room = ltb_ℤ s.processing_vsbs s.vsb_batch_number in
        Leaves-get_state _ s (
          Leaves-if (full && unset) _ _ s (λ _. Leaves-of_Keeps _ s queued-Reached h)
            (λ _.
              Leaves-if (full && queued) _ _ s (λ _. Leaves-of_Keeps _ s (Keeps-pure false) h)
                (λ _.
                  Leaves-if (room && (unset || queued)) _ _ s
                    (λ e. admit-Reached s (&&-left room (unset || queued) e) h)
                    (λ _. Leaves-of_Keeps _ s (Keeps-pure true) h))))

  finish-Reached :
      (source : ReplicationSource) → Keeps (Reached vsb_slots m) (finish_vol_sync c r source)
  unfolding finish_vol_sync
  finish-Reached source = Keeps-bind _ _ (update_batching-Keeps (VsbReached-Stable m) c r _) λ _.
      Keeps-bind _ _ (update_vsb_status_phase-Keeps (VsbReached-Stable m) c r _ _)
        λ _. vsb_down-Reached m _ (λ _. Keeps-pure true)

  set_status-Reached :
      (v : VolumeSnapshotBackup) (source : ReplicationSource)
      → Keeps (Reached vsb_slots m) (set_status_from_rep_source c r v source)
  unfolding set_status_from_rep_source
  set_status-Reached v source =
      search
        (
          VsbReached-Stable m,
          keeps_rules,
          finish-Reached,
          mark_failed-Keeps,
          mark_in_progress-Keeps,
          is_rep_source_completed-Keeps,
        )
        depth 14

  status-Reached : Keeps (Reached vsb_slots m) (set_vsb_status c r)
  unfolding set_vsb_status with_vsb
  status-Reached =
      search
        (
          VsbReached-Stable m,
          keeps_rules,
          set_status-Reached,
          get_vsb-Keeps,
          from_backup-Keeps,
          get_object-Keeps,
        )
        depth 14

module _ {W : Type 0} (m : Slots) where
  down-Reached :
      Keeps {W = W}
        (Reached vsb_slots m)
        (get_state >>= λ s. set_processing_vsbs (decr s.processing_vsbs))
  unfolding ◌>>=◌ get_state set_processing_vsbs
  down-Reached = record { at = λ s h. record { path = Reach.next h.path (Move.release refl) } }

  release-Reached :
      (v : VolumeSnapshotBackup) → Keeps {W = W} (Reached vsb_slots m) (release_place v)
  unfolding release_place ◌>>=◌ get_state
  release-Reached v = record {
    at = λ s h. elim (Bool-cases (holds_place v)) [
      | inl e ↦ rw e (down-Reached.at s h)
      | inr e ↦ rw e h
    ];
  }

module _ {W : Type 0} (m : Slots) (c : Client W) where
  load-Reached :
      (v : VolumeSnapshotBackup) → Keeps (Reached vsb_slots m) (load_vsb_batch_number c v)
  unfolding load_vsb_batch_number ◌>>=◌
  load-Reached v = Keeps-of_Leaves _ λ s h. Leaves-get_state _ s (
      Leaves-if (eq_ℤ s.vsb_batch_number (pos 0)) _ _ s (λ e. fill s h e)
        (λ _. Leaves-of_Keeps _ s (Keeps-pure tt) h))
    where
      fill :
          (s : State W)
          → Reached vsb_slots m s
          → eq_ℤ s.vsb_batch_number (pos 0) ≡ true
          → Leaves
              (Reached vsb_slots m)
              (get_backup_batch_value c v.spec.protected_namespace >>= store_vsb_batch_number)
              s
      fill s h e =
          let ns = v.spec.protected_namespace in
          let (answer, s') = get_backup_batch_value c ns s in
          let same = (get_value-Keeps (SameCounts-stable s) c ns).at s (SameCounts-refl s) in
          record { left = vsb_store-Reached m answer s s' same e h }

  pub reconcile-Reached : (req : NamespacedName) → Keeps (Reached vsb_slots m) (reconcile c req)
  reconcile-Reached =
      reconcile-Keeps (VsbReached-Stable m) c (clean_backup-Keeps (VsbReached-Silent m) c)
        (queue-Reached m c) (status-Reached m c) (release-Reached m) load-Reached

all-Reached :
    {W : Type 0} (m : Slots) (c : Client W) (reqs : List NamespacedName) (s : State W)
    → Reached vsb_slots m s
    → Reached vsb_slots m (reconcile_all c reqs s)
unfolding reconcile_all
all-Reached m c [] s h = h
all-Reached m c (req ∷ reqs) s h = all-Reached m c reqs _ ((reconcile-Reached m c req).at s h)

-- Whatever the API server answers, and whatever requests come in what order, the counter of
-- backups and their batch number change only as slots do: the number is set, to a 64-bit integer,
-- while it is zero, a place is taken only where there is room, and places are given back.
pub reconcile_all-Reach :
    {W : Type 0} (c : Client W) (reqs : List NamespacedName) (s : State W)
    → Reach (vsb_slots s) (vsb_slots (reconcile_all c reqs s))
reconcile_all-Reach c reqs s =
    (all-Reached (vsb_slots s) c reqs s (record { path = Reach.here })).path
