-- ===== src/Exec/Keeps.antt =====
-- Invariants of the state, one rule for each way to build a run.
use volume_snapshot_mover.Prelude.{◌≡◌, refl, Bool, true, false, Option, none, some, if◌then◌else◌}
use volume_snapshot_mover.Exec.{
  Error, Result, ok, err, panic, State, Exec, pure, fail, crash, deref, from_result, ◌>>=◌, resume,
  resume_found, resume_any, if_nil, or_missing, or_else, attempt, settle, get_state,
}

-- However `m` ends, the state that it leaves satisfies `P` if the one it found did.
pub record Keeps {W A : Type 0} (P : State W → Type 0) (m : Exec W A) : Type 0 where
  pub at : (s : State W) → P s → P (m s).1

module _ {W A : Type 0} {P : State W → Type 0} where
  pub Keeps-pure : (a : A) → Keeps P (pure a)
  unfolding pure
  Keeps-pure a = record { at = λ s h. h }

  pub Keeps-fail : (e : Error) → Keeps P (fail {A = A} e)
  unfolding fail
  Keeps-fail e = record { at = λ s h. h }

  pub Keeps-crash : Keeps P (crash {A = A})
  unfolding crash
  Keeps-crash = record { at = λ s h. h }

  pub Keeps-deref : (o : Option A) → Keeps P (deref o)
  unfolding deref
  Keeps-deref none = Keeps-crash
  Keeps-deref (some a) = Keeps-pure a

  pub Keeps-from_result : (r : Result A) → Keeps P (from_result r)
  unfolding from_result
  Keeps-from_result r = record { at = λ s h. h }

  pub Keeps-if : (b : Bool) (m n : Exec W A) → Keeps P m → Keeps P n → Keeps P (if b then m else n)
  Keeps-if true m n km kn = km
  Keeps-if false m n km kn = kn

-- `m`, started in `s`, ends in a state that satisfies `P`.
pub record Leaves {W A : Type 0} (P : State W → Type 0) (m : Exec W A) (s : State W) : Type 0 where
  pub left : P (m s).1

module _ {W A : Type 0} {P : State W → Type 0} where
  -- Each side of a test may use its outcome.
  pub Leaves-if :
      (b : Bool) (m n : Exec W A) (s : State W)
      → (b ≡ true → Leaves P m s)
      → (b ≡ false → Leaves P n s)
      → Leaves P (if b then m else n) s
  Leaves-if true m n s hm hn = hm refl
  Leaves-if false m n s hm hn = hn refl

  pub Leaves-get_state :
      (f : State W → Exec W A) (s : State W) → Leaves P (f s) s → Leaves P (get_state >>= f) s
  unfolding ◌>>=◌ get_state
  Leaves-get_state f s h = record { left = h.left }

  pub Leaves-of_Keeps : (m : Exec W A) (s : State W) → Keeps P m → P s → Leaves P m s
  Leaves-of_Keeps m s k h = record { left = k.at s h }

  pub Keeps-of_Leaves : (m : Exec W A) → ((s : State W) → P s → Leaves P m s) → Keeps P m
  Keeps-of_Leaves m k = record { at = λ s h. (k s h).left }

module _ {W : Type 0} {P : State W → Type 0} where
  pub Keeps-get_state : Keeps P (get_state {W = W})
  unfolding get_state
  Keeps-get_state = record { at = λ s h. h }

module _ {W A B : Type 0} where
  resume-Keeps :
      {P : State W → Type 0} (r : Result A) (f : A → Exec W B)
      → ((a : A) → Keeps P (f a))
      → (s : State W) → P s
      → P (resume r f s).1
  resume-Keeps (ok a) f kf s h = (kf a).at s h
  resume-Keeps (err e) f kf s h = h
  resume-Keeps panic f kf s h = h

module _ {W A B : Type 0} {P : State W → Type 0} where
  pub Keeps-bind :
      (step : Exec W A) (rest : A → Exec W B)
      → Keeps P step
      → ((a : A) → Keeps P (rest a))
      → Keeps P (step >>= rest)
  unfolding ◌>>=◌
  Keeps-bind step rest ks kr = record {
    at = λ s h. let (answer, s') = step s in resume-Keeps answer rest kr s' (ks.at s h);
  }

  pub Leaves-bind :
      (m : Exec W A) (f : A → Exec W B) (s : State W)
      → Leaves P m s
      → ((a : A) → Keeps P (f a))
      → Leaves P (m >>= f) s
  unfolding ◌>>=◌
  Leaves-bind m f s lm kf = record { left = let (r, s') = m s in resume-Keeps r f kf s' lm.left }

  -- A run whose first part brings about `Q`, which the rest keeps and which is enough for `P`.
  pub Keeps-through :
      {Q : State W → Type 0} (m : Exec W A) (f : A → Exec W B)
      → ((s : State W) → P s → Q (m s).1)
      → ((a : A) → Keeps Q (f a))
      → ((s : State W) → Q s → P s)
      → Keeps P (m >>= f)
  unfolding ◌>>=◌
  Keeps-through {Q = Q} m f km kf weaken = record {
    at = λ s h. let (r, s') = m s in weaken _ (resume-Keeps {P = Q} r f kf s' (km s h));
  }

  pub Keeps-if_nil :
      (o : Option A) (m : Exec W B) (f : A → Exec W B)
      → Keeps P m
      → ((a : A) → Keeps P (f a))
      → Keeps P (if_nil o m f)
  unfolding if_nil
  Keeps-if_nil none m f km kf = km
  Keeps-if_nil (some a) m f km kf = kf a

  resume_found-Keeps :
      (r : Result A) (n : Exec W B) (f : A → Exec W B)
      → Keeps P n
      → ((a : A) → Keeps P (f a))
      → (s : State W) → P s
      → P (resume_found r n f s).1
  resume_found-Keeps (ok a) n f kn kf s h = (kf a).at s h
  resume_found-Keeps (err Error.not_found) n f kn kf s h = kn.at s h
  resume_found-Keeps (err (Error.message t)) n f kn kf s h = h
  resume_found-Keeps panic n f kn kf s h = h

  pub Keeps-or_missing :
      (m : Exec W A) (n : Exec W B) (f : A → Exec W B)
      → Keeps P m
      → Keeps P n
      → ((a : A) → Keeps P (f a))
      → Keeps P (or_missing m n f)
  unfolding or_missing
  Keeps-or_missing m n f km kn kf = record {
    at = λ s h. let (r, s') = m s in resume_found-Keeps r n f kn kf s' (km.at s h);
  }

  resume_any-Keeps :
      (r : Result A) (n : Exec W B) (f : A → Exec W B)
      → Keeps P n
      → ((a : A) → Keeps P (f a))
      → (s : State W) → P s
      → P (resume_any r n f s).1
  resume_any-Keeps (ok a) n f kn kf s h = (kf a).at s h
  resume_any-Keeps (err e) n f kn kf s h = kn.at s h
  resume_any-Keeps panic n f kn kf s h = h

  pub Keeps-or_else :
      (m : Exec W A) (n : Exec W B) (f : A → Exec W B)
      → Keeps P m
      → Keeps P n
      → ((a : A) → Keeps P (f a))
      → Keeps P (or_else m n f)
  unfolding or_else
  Keeps-or_else m n f km kn kf = record {
    at = λ s h. let (r, s') = m s in resume_any-Keeps r n f kn kf s' (km.at s h);
  }

module _ {W A : Type 0} where
  settle-Keeps : (P : State W → Type 0) (r : Result A) (s : State W) → P s → P (settle r s).1
  settle-Keeps P panic s h = h
  settle-Keeps P (ok a) s h = h
  settle-Keeps P (err e) s h = h

module _ {W A : Type 0} {P : State W → Type 0} where
  pub Keeps-attempt : (m : Exec W A) → Keeps P m → Keeps P (attempt m)
  unfolding attempt
  Keeps-attempt m km = record { at = λ s h. let (r, s') = m s in settle-Keeps P r s' (km.at s h) }

pub ruleset keeps_rules = (
  Keeps-pure, Keeps-fail, Keeps-crash, Keeps-deref, Keeps-from_result, Keeps-if, Keeps-get_state,
  Keeps-bind, Keeps-if_nil, Keeps-or_missing, Keeps-or_else, Keeps-attempt,
)
