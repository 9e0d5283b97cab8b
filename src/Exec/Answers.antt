-- ===== src/Exec/Answers.antt =====
-- What a run can answer: a property of the answers of all runs that end without an error.
use volume_snapshot_mover.Prelude.{Bool, true, false, Option, none, some, if◌then◌else◌}
use volume_snapshot_mover.Exec.{
  Error, Result, ok, err, panic, State, Exec, pure, fail, crash, ◌>>=◌, resume, resume_found,
  if_nil, or_missing,
}

-- An answer without an error satisfies `Q`.
pub data Allowed {A : Type 0} (Q : A → Type 0) : Result A → Type 0 where
  answered : {a : A} → Q a → Allowed Q (ok a)
  failed : {e : Error} → Allowed Q (err e)
  crashed : Allowed Q panic

pub record Answers {W A : Type 0} (Q : A → Type 0) (m : Exec W A) : Type 0 where
  pub at : (s : State W) → Allowed Q (m s).0

module _ {W A : Type 0} {Q : A → Type 0} where
  pub Answers-pure : (a : A) → Q a → Answers {W = W} Q (pure a)
  unfolding pure
  Answers-pure a q = record { at = λ s. answered q }

  pub Answers-fail : (e : Error) → Answers {W = W} Q (fail e)
  unfolding fail
  Answers-fail e = record { at = λ s. failed }

  pub Answers-crash : Answers {W = W} Q crash
  unfolding crash
  Answers-crash = record { at = λ s. crashed }

  pub Answers-if :
      (b : Bool) (m n : Exec W A) → Answers Q m → Answers Q n → Answers Q (if b then m else n)
  Answers-if true m n am an = am
  Answers-if false m n am an = an

module _ {W A B : Type 0} {Q : B → Type 0} where
  resume-Allowed :
      (r : Result A) (f : A → Exec W B)
      → ((a : A) → Answers Q (f a))
      → (s : State W) → Allowed Q (resume r f s).0
  resume-Allowed (ok a) f af s = (af a).at s
  resume-Allowed (err e) f af s = failed
  resume-Allowed panic f af s = crashed

  -- Only what comes last answers.
  pub Answers-bind :
      (m : Exec W A) (f : A → Exec W B) → ((a : A) → Answers Q (f a)) → Answers Q (m >>= f)
  unfolding ◌>>=◌
  Answers-bind m f af = record { at = λ s. let (r, s') = m s in resume-Allowed r f af s' }

  pub Answers-if_nil :
      (o : Option A) (m : Exec W B) (f : A → Exec W B)
      → Answers Q m
      → ((a : A) → Answers Q (f a))
      → Answers Q (if_nil o m f)
  unfolding if_nil
  Answers-if_nil none m f am af = am
  Answers-if_nil (some a) m f am af = af a

  resume_found-Allowed :
      (r : Result A) (n : Exec W B) (f : A → Exec W B)
      → Answers Q n
      → ((a : A) → Answers Q (f a))
      → (s : State W) → Allowed Q (resume_found r n f s).0
  resume_found-Allowed (ok a) n f an af s = (af a).at s
  resume_found-Allowed (err Error.not_found) n f an af s = an.at s
  resume_found-Allowed (err (Error.message t)) n f an af s = failed
  resume_found-Allowed panic n f an af s = crashed

  pub Answers-or_missing :
      (m : Exec W A) (n : Exec W B) (f : A → Exec W B)
      → Answers Q n
      → ((a : A) → Answers Q (f a))
      → Answers Q (or_missing m n f)
  unfolding or_missing
  Answers-or_missing m n f an af = record {
    at = λ s. let (r, s') = m s in resume_found-Allowed r n f an af s';
  }

pub ruleset answer_rules = (
  Answers-pure, Answers-fail, Answers-crash, Answers-if, Answers-bind, Answers-if_nil,
  Answers-or_missing,
)
