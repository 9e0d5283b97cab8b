-- ===== src/Batch/Slots/Counter.antt =====
-- The counters of the two queues move as slots do: each move of a counter or of a batch number is
-- one move of the slots.
use volume_snapshot_mover.Prelude.{String, ◌≡◌, refl, true, Option}
use volume_snapshot_mover.Prelude.Int.{pos, incr, decr, eq_ℤ, ltb_ℤ}
use volume_snapshot_mover.Go.Strconv.{NumError, atoi, atoi-InBounds}
use volume_snapshot_mover.Exec.{
  Error, Result, ok, err, panic, State, Exec, pure, fail, ◌>>=◌, resume, get_state, if_nil,
  set_processing_vsbs, set_processing_vsrs, set_vsb_batch_number, set_vsr_batch_number,
}
use volume_snapshot_mover.Exec.Keeps.{Keeps, keeps_rules}
use volume_snapshot_mover.Exec.Counts.{SameCounts}
use volume_snapshot_mover.Batch.Slots.{Slots, Reach, Move}
use volume_snapshot_mover.Batch.Slots.Reached.{Reached, vsb_slots, vsr_slots, vsb_same, vsr_same}
use volume_snapshot_mover.Backup.Reconcile.{store_vsb_batch_number}
use volume_snapshot_mover.Restore.Reconcile.{store_vsr_batch_number}

module _ {W A : Type 0} (m : Slots) where
  -- `counter--`, with anything that leaves the slots alone behind it.
  pub vsb_down-Reached :
      (f : Unit {0} → Exec W A)
      → ((u : Unit {0}) → Keeps (Reached vsb_slots m) (f u))
      → Keeps
          (Reached vsb_slots m)
          (get_state >>= λ s. set_processing_vsbs (decr s.processing_vsbs) >>= f)
  unfolding ◌>>=◌ get_state set_processing_vsbs
  vsb_down-Reached f kf = record {
    at = λ s h.
        (kf tt).at (record s { processing_vsbs = decr s.processing_vsbs })
          (record { path = Reach.next h.path (Move.release refl) });
  }

  pub vsr_down-Reached :
      (f : Unit {0} → Exec W A)
      → ((u : Unit {0}) → Keeps (Reached vsr_slots m) (f u))
      → Keeps
          (Reached vsr_slots m)
          (get_state >>= λ s. set_processing_vsrs (decr s.processing_vsrs) >>= f)
  unfolding ◌>>=◌ get_state set_processing_vsrs
  vsr_down-Reached f kf = record {
    at = λ s h.
        (kf tt).at (record s { processing_vsrs = decr s.processing_vsrs })
          (record { path = Reach.next h.path (Move.release refl) });
  }

  -- `counter++` behind the outcome of a write that left the counters alone.
  pub vsb_up-Reached :
      (f : Unit {0} → Exec W A)
      → ((u : Unit {0}) → Keeps (Reached vsb_slots m) (f u))
      → (r : Result Unit) (s s' : State W) → SameCounts s s'
      → ltb_ℤ s.processing_vsbs s.vsb_batch_number ≡ true
      → Reached vsb_slots m s
      → Reached vsb_slots m
          (resume r
            (λ _. get_state >>= λ t. set_processing_vsbs (incr t.processing_vsbs) >>= f)
            s').1
  unfolding ◌>>=◌ get_state set_processing_vsbs
  vsb_up-Reached f kf (ok u) s s' e below h =
      (kf tt).at (record s' { processing_vsbs = incr s'.processing_vsbs })
        (record {
          path =
              Reach.next (vsb_same m s s' e h).path
                (Move.admit (rw (e.vsbs, e.vsb_batch) below) refl);
        })
  vsb_up-Reached f kf (err x) s s' e below h = vsb_same m s s' e h
  vsb_up-Reached f kf panic s s' e below h = vsb_same m s s' e h

  pub vsr_up-Reached :
      (f : Unit {0} → Exec W A)
      → ((u : Unit {0}) → Keeps (Reached vsr_slots m) (f u))
      → (r : Result Unit) (s s' : State W) → SameCounts s s'
      → ltb_ℤ s.processing_vsrs s.vsr_batch_number ≡ true
      → Reached vsr_slots m s
      → Reached vsr_slots m
          (resume r
            (λ _. get_state >>= λ t. set_processing_vsrs (incr t.processing_vsrs) >>= f)
            s').1
  unfolding ◌>>=◌ get_state set_processing_vsrs
  vsr_up-Reached f kf (ok u) s s' e below h =
      (kf tt).at (record s' { processing_vsrs = incr s'.processing_vsrs })
        (record {
          path =
              Reach.next (vsr_same m s s' e h).path
                (Move.admit (rw (e.vsrs, e.vsr_batch) below) refl);
        })
  vsr_up-Reached f kf (err x) s s' e below h = vsr_same m s s' e h
  vsr_up-Reached f kf panic s s' e below h = vsr_same m s s' e h

module _ {W : Type 0} (P : State W → Type 0) where
  -- What Atoi says about the text leaves the state alone.
  outcome-Keeps :
      (o : Option NumError)
      → Keeps P (if_nil o (pure tt) (λ e. fail (Error.message "strconv.Atoi")))
  outcome-Keeps o = search keeps_rules

module _ {W : Type 0} (m : Slots) where
  -- A batch number is stored only in place of zero.
  pub vsb_store-Reached :
      (r : Result String) (s s' : State W)
      → SameCounts s s'
      → eq_ℤ s.vsb_batch_number (pos 0) ≡ true
      → Reached vsb_slots m s
      → Reached vsb_slots m (resume r store_vsb_batch_number s').1
  unfolding store_vsb_batch_number ◌>>=◌ set_vsb_batch_number
  vsb_store-Reached (ok v) s s' e zero h =
      (outcome-Keeps (Reached vsb_slots m) (atoi v).error).at
        (record s' { vsb_batch_number = (atoi v).value })
        (record {
          path =
              Reach.next (vsb_same m s s' e h).path
                (Move.load (atoi v).value (rw e.vsb_batch zero) (atoi-InBounds v) refl);
        })
  vsb_store-Reached (err x) s s' e zero h = vsb_same m s s' e h
  vsb_store-Reached panic s s' e zero h = vsb_same m s s' e h

  pub vsr_store-Reached :
      (r : Result String) (s s' : State W)
      → SameCounts s s'
      → eq_ℤ s.vsr_batch_number (pos 0) ≡ true
      → Reached vsr_slots m s
      → Reached vsr_slots m (resume r store_vsr_batch_number s').1
  unfolding store_vsr_batch_number ◌>>=◌ set_vsr_batch_number
  vsr_store-Reached (ok v) s s' e zero h =
      (outcome-Keeps (Reached vsr_slots m) (atoi v).error).at
        (record s' { vsr_batch_number = (atoi v).value })
        (record {
          path =
              Reach.next (vsr_same m s s' e h).path
                (Move.load (atoi v).value (rw e.vsr_batch zero) (atoi-InBounds v) refl);
        })
  vsr_store-Reached (err x) s s' e zero h = vsr_same m s s' e h
  vsr_store-Reached panic s s' e zero h = vsr_same m s s' e h
