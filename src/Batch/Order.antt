-- ===== src/Batch/Order.antt =====
-- The order of a batch: which steps of ReconcileBatch (controllers/common.go) run, and how it ends.
use volume_snapshot_mover.Prelude.{◌≡◌, refl, Bool, true, false, List, [], ◌∷◌, ◌++◌, if◌then◌else◌}
use volume_snapshot_mover.Exec.{Error, Result, ok, err, panic, State, pure, ◌>>=◌, resume}
use volume_snapshot_mover.Batch.Run.{ReconcileFunc, reconcile_batch}

-- Each step answers true, the first started in `s`, each other where the one before ended, the
-- last ending in `t`.
pub data AllTrue {W : Type 0} : List (ReconcileFunc W) → State W → State W → Type 0 where
  done : {s : State W} → AllTrue [] s s
  step :
      {f : ReconcileFunc W} {fs : List (ReconcileFunc W)} {s t u : State W}
      → f s ≡ (ok true, t)
      → AllTrue fs t u
      → AllTrue (f ∷ fs) s u

-- The outcomes of a step that end the batch.
pub data Ending : Result Bool → Type 0 where
  untrue : Ending (ok false)
  failed : (e : Error) → Ending (err e)
  crashed : Ending panic

-- How a batch may run: all its steps answer true, or the steps `before` do and the next one ends it
-- with its own outcome and in its own state, so that those `behind` do not run.
pub data Stops {W : Type 0} (fs : List (ReconcileFunc W)) (s : State W)
    : Result Bool × State W → Type 0 where
  through : (t : State W) → AllTrue fs s t → Stops fs s (ok true, t)
  at :
      (before behind : List (ReconcileFunc W)) (f : ReconcileFunc W) (t u : State W)
      (a : Result Bool)
      → fs ≡ before ++ (f ∷ behind)
      → AllTrue before s t
      → f t ≡ (a, u)
      → Ending a
      → Stops fs s (a, u)

module _ {W : Type 0} where
  Stops-step :
      (f : ReconcileFunc W) (fs : List (ReconcileFunc W)) (s t : State W)
      (p : Result Bool × State W)
      → f s ≡ (ok true, t)
      → Stops fs t p
      → Stops (f ∷ fs) s p
  Stops-step f fs s t p e (Stops.through u h) = Stops.through u (AllTrue.step e h)
  Stops-step f fs s t p e (Stops.at before behind g u v a whole h last ends) =
      Stops.at (f ∷ before) behind g u v a (λ i. f ∷ whole i) (AllTrue.step e h) last ends

  Stops-first :
      (f : ReconcileFunc W) (fs : List (ReconcileFunc W)) (s : State W) (p : Result Bool × State W)
      → ((t : State W) → Stops fs t (reconcile_batch fs t))
      → f s ≡ p
      → Stops (f ∷ fs) s (resume p.0 (λ cont. if cont then reconcile_batch fs else pure cont) p.1)
  unfolding pure
  Stops-first f fs s (ok true, t) ih e = Stops-step f fs s t _ e (ih t)
  Stops-first f fs s (ok false, t) ih e =
      Stops.at [] fs f s t (ok false) refl AllTrue.done e Ending.untrue
  Stops-first f fs s (err x, t) ih e =
      Stops.at [] fs f s t (err x) refl AllTrue.done e (Ending.failed x)
  Stops-first f fs s (panic, t) ih e = Stops.at [] fs f s t panic refl AllTrue.done e Ending.crashed

  -- A batch stops at its first step that answers false, errs or panics: either all its steps answer
  -- true, each started where the one before ended, and the batch answers true in the last state;
  -- or the steps before some step do, and that step ends the batch with its own outcome and in
  -- its own state, so that no step behind it runs.
  pub reconcile_batch-Stops :
      (fs : List (ReconcileFunc W)) (s : State W) → Stops fs s (reconcile_batch fs s)
  unfolding reconcile_batch ◌>>=◌ pure
  reconcile_batch-Stops [] s = Stops.through s AllTrue.done
  reconcile_batch-Stops (f ∷ fs) s = Stops-first f fs s (f s) (reconcile_batch-Stops fs) refl
