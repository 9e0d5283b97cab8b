-- ===== src/Ctrl/Answered.antt =====
-- Behind a call whose error ends Reconcile, when the call is answered.
use volume_snapshot_mover.Prelude.{◌≡◌, true, false, refl}
use volume_snapshot_mover.Exec.{
  Result, ok, err, panic, State, Exec, ◌>>=◌, attempt, resume, settle, pure,
}
use volume_snapshot_mover.Exec.Safe.{Safe, allowed}
use volume_snapshot_mover.Ctrl.{CtrlReturn, stop, ended_by, on_ok}

module _ {W A : Type 0} where
  settled :
      (Q : Result CtrlReturn × State W → Type 0) (r : Result A) (f : A → Exec W CtrlReturn)
      (s : State W)
      → allowed false r ≡ true
      → ((a : A) → Q (f a s))
      → (let (x, s') = settle r s in Q (resume x (λ y. on_ok y f) s'))
  unfolding on_ok
  settled Q (ok a) f s h q = q a
  settled Q (err e) f s h q = absurd (cc)
  settled Q panic f s h q = absurd (cc)

  -- What holds behind a run that answers, in the form `x, err := …; if err != nil { return }`.
  pub after-attempt :
      (Q : Result CtrlReturn × State W → Type 0) (m : Exec W A) (f : A → Exec W CtrlReturn)
      (s : State W)
      → Safe false m
      → ((a : A) → Q (f a (m s).1))
      → Q ((attempt m >>= λ x. on_ok x f) s)
  unfolding ◌>>=◌ attempt
  after-attempt Q m f s sm q = let (r, s') = m s in settled Q r f s' (sm.at s) q

  -- What holds behind a run whose answer is known.
  pub on_answer :
      (Q : Result CtrlReturn × State W → Type 0) (m : Exec W A) (f : A → Exec W CtrlReturn)
      (s : State W) (a : A)
      → (m s).0 ≡ ok a
      → Q (f a (m s).1)
      → Q ((attempt m >>= λ x. on_ok x f) s)
  unfolding ◌>>=◌ attempt on_ok
  on_answer Q m f s a h q = rw h q

  -- Reconcile ends with the answer of its last call.
  pub ends_by :
      (r : Result A) (s : State W)
      → (let (x, s') = settle r s in resume x (λ y. on_ok y (λ _. pure stop)) s') ≡ (ended_by r, s)
  unfolding on_ok pure
  ends_by (ok a) s = refl
  ends_by (err e) s = refl
  ends_by panic s = refl
