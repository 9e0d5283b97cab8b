-- ===== src/Exec/Safe.antt =====
-- Runs that do not panic and, on request, do not fail: total statements on a server that answers.
use volume_snapshot_mover.Prelude.{Bool, true, false, ◌≡◌, refl, if◌then◌else◌}
use volume_snapshot_mover.Exec.{
  Error, Call, Result, ok, err, panic, State, Exec, pure, fail, ◌>>=◌, resume, attempt, settle,
  get_state, request,
}

-- Answers, and errors too where `errors` says so; never a panic.
abbrev pub allowed : {A : Type 0} → (errors : Bool) → Result A → Bool
allowed errors (ok a) = true
allowed errors (err e) = errors
allowed errors panic = false

pub record Safe {W A : Type 0} (errors : Bool) (m : Exec W A) : Type 0 where
  pub at : (s : State W) → allowed errors (m s).0 ≡ true

module _ {W A : Type 0} {errors : Bool} where
  pub Safe-pure : (a : A) → Safe {W = W} errors (pure a)
  unfolding pure
  Safe-pure a = record { at = λ s. refl }

  pub Safe-if :
      (b : Bool) (m n : Exec W A) → Safe errors m → Safe errors n → Safe errors (if b then m else n)
  Safe-if true m n sm sn = sm
  Safe-if false m n sm sn = sn

  pub Safe-request :
      (k : Call) (f : W → Result A × W)
      → ((w : W) → allowed errors (f w).0 ≡ true)
      → Safe errors (request k f)
  unfolding request
  Safe-request k f h = record { at = λ s. h s.world }

module _ {W A : Type 0} (errors : Bool) where
  settle-allowed :
      (r : Result A) (s : State W) → allowed true r ≡ true → allowed errors (settle r s).0 ≡ true
  settle-allowed (ok a) s h = refl
  settle-allowed (err e) s h = refl
  settle-allowed panic s h = h

module _ {W A : Type 0} {errors : Bool} where
  -- An error that is looked at later is no error yet.
  pub Safe-attempt : (m : Exec W A) → Safe true m → Safe errors (attempt m)
  unfolding attempt
  Safe-attempt m h = record { at = λ s. let (r, s') = m s in settle-allowed errors r s' (h.at s) }

  pub Safe-weaken : (m : Exec W A) → Safe false m → Safe errors m
  Safe-weaken m h = record { at = λ s. weaken (m s).0 (h.at s) }
    where
      weaken : (r : Result A) → allowed false r ≡ true → allowed errors r ≡ true
      weaken (ok a) e = refl
      weaken (err x) e = absurd (cc)
      weaken panic e = absurd (cc)

module _ {W A : Type 0} where
  pub Safe-fail : (e : Error) → Safe {W = W} {A = A} true (fail e)
  unfolding fail
  Safe-fail e = record { at = λ s. refl }

module _ {W : Type 0} {errors : Bool} where
  pub Safe-get_state : Safe errors (get_state {W = W})
  unfolding get_state
  Safe-get_state = record { at = λ s. refl }

module _ {W A B : Type 0} {errors : Bool} where
  resume-Safe :
      (r : Result A) (f : A → Exec W B)
      → allowed errors r ≡ true
      → ((a : A) → Safe errors (f a))
      → (s : State W) → allowed errors (resume r f s).0 ≡ true
  resume-Safe (ok a) f h sf s = (sf a).at s
  resume-Safe (err e) f h sf s = h
  resume-Safe panic f h sf s = h

  pub Safe-bind :
      (m : Exec W A) (f : A → Exec W B)
      → Safe errors m
      → ((a : A) → Safe errors (f a))
      → Safe errors (m >>= f)
  unfolding ◌>>=◌
  Safe-bind m f sm sf = record { at = λ s. let (r, s') = m s in resume-Safe r f (sm.at s) sf s' }

module _ {W A B : Type 0} where
  after :
      (Q : Result B × State W → Type 0) (r : Result A) (f : A → Exec W B) (s : State W)
      → allowed false r ≡ true
      → ((a : A) → Q (f a s))
      → Q (resume r f s)
  after Q (ok a) f s h q = q a
  after Q (err e) f s h q = absurd (cc)
  after Q panic f s h q = absurd (cc)

  -- What holds behind a run that answers.
  pub after-Safe :
      (Q : Result B × State W → Type 0) (m : Exec W A) (f : A → Exec W B) (s : State W)
      → Safe false m
      → ((a : A) → Q (f a (m s).1))
      → Q ((m >>= f) s)
  unfolding ◌>>=◌
  after-Safe Q m f s sm q = let (r, s') = m s in after Q r f s' (sm.at s) q

pub ruleset safe_rules = (Safe-pure, Safe-if, Safe-get_state, Safe-bind, Safe-request, Safe-attempt)
