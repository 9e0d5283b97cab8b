-- ===== src/Backup/Source/Retain/Exact.antt =====
-- The retain policy that a ReplicationSource is given, against the texts that it comes from.
use volume_snapshot_mover.Prelude.{
  String, Bool, true, false, ◌&&◌, ◌||◌, ◌≡◌, refl, Option, none, some, List, [], ◌∷◌, ◌^◌, ◌==◌,
  Bool-cases, inl, inr, arith, if◌then◌else◌,
}
use volume_snapshot_mover.Prelude.Int.{ℤ, pos, eq_ℤ}
use volume_snapshot_mover.Go.Strconv.{NumError, Parsed, parse_int32, parse_int32-InBounds, InBounds}
use volume_snapshot_mover.Go.Word.{to_int32-InBounds}
use volume_snapshot_mover.Secret.Build.{RetainPolicy}
use volume_snapshot_mover.Api.VolSync.{ResticRetainPolicy}
use volume_snapshot_mover.Exec.{Error, Result, ok, err}
use volume_snapshot_mover.Backup.Source.Retain.{
  checked, parse_or_zero, nonzero, and_then, configure_rep_source_snapshot_retain_policy,
}

abbrev is_right : Option NumError → Bool
is_right none = true
is_right (some e) = false

-- The text is empty or a decimal number of 32 bits.
pub is_count : String → Bool
is_count s = s == "" || is_right (parse_int32 s).error

abbrev pub are_counts : List String → Bool
are_counts [] = true
are_counts (s ∷ ss) = is_count s && are_counts ss

-- The number that the text spells: zero for the empty text.
unfoldable number : String → ℤ
number s = if s == "" then pos 0 else (parse_int32 s).value

-- The number that the text spells, unless it is zero.
pub count_of : String → Option ℤ
count_of s = if eq_ℤ (number s) (pos 0) then none else some (number s)

abbrev pub retain_answer : Bool → ResticRetainPolicy → Result ResticRetainPolicy
retain_answer true p = ok p
retain_answer false p = err (Error.message "strconv.ParseInt")

number-InBounds : (s : String) → InBounds (2 ^ 31) (number s)
unfolding number
number-InBounds s = elim (Bool-cases (s == "")) [
  | inl e ↦ rw e (omega arith, omega arith)
  | inr e ↦ rw e (parse_int32-InBounds s)
]

nonzero-count : (s : String) → nonzero (number s) ≡ count_of s
unfolding nonzero count_of
nonzero-count s i =
    if eq_ℤ (number s) (pos 0)
    then none
    else some (to_int32-InBounds (number s) (number-InBounds s) i)

checked-right :
    (p : Parsed)
    → checked p ≡ (if is_right p.error then ok p.value else err (Error.message "strconv.ParseInt"))
checked-right p = helper p.value p.error
  where
    helper :
        (v : ℤ) (e : Option NumError)
        → checked (record { value = v; error = e })
          ≡ (if is_right e then ok v else err (Error.message "strconv.ParseInt"))
    helper v none = refl
    helper v (some e) = refl

parse_or_zero-number :
    (s : String)
    → parse_or_zero s
      ≡ (if is_count s then ok (number s) else err (Error.message "strconv.ParseInt"))
unfolding parse_or_zero is_count number
parse_or_zero-number s = elim (Bool-cases (s == "")) [
  | inl e ↦ rw e refl
  | inr e ↦ rw e (checked-right (parse_int32 s))
]

-- One field: what comes behind it is asked for only if the text is right.
field :
    (s : String) (f : ℤ → Result ResticRetainPolicy) (b : Bool) (p : ResticRetainPolicy)
    → f (number s) ≡ retain_answer b p
    → and_then (parse_or_zero s) f ≡ retain_answer (is_count s && b) p
field s f b p h = elim (Bool-cases (is_count s)) [
  | inl e ↦ rw (parse_or_zero-number s, e) h
  | inr e ↦ rw (parse_or_zero-number s, e) refl
]

-- A retain policy is accepted exactly if each of its five counts is empty or a decimal number
-- of 32 bits; each count is then the very number of its text, without wrapping around, and is
-- left out where the text is empty or spells zero.
pub configure_rep_source_snapshot_retain_policy-exact :
    (rpolicy : RetainPolicy)
    → configure_rep_source_snapshot_retain_policy rpolicy
      ≡ retain_answer
          (are_counts (
            rpolicy.daily ∷ rpolicy.hourly ∷ rpolicy.weekly ∷ rpolicy.monthly ∷ rpolicy.yearly
            ∷ []))
          (record {
            hourly = count_of rpolicy.hourly;
            daily = count_of rpolicy.daily;
            weekly = count_of rpolicy.weekly;
            monthly = count_of rpolicy.monthly;
            yearly = count_of rpolicy.yearly;
            within = if rpolicy.within == "" then none else some rpolicy.within;
          })
unfolding configure_rep_source_snapshot_retain_policy
configure_rep_source_snapshot_retain_policy-exact rpolicy = field rpolicy.daily _ _ _ (
    field rpolicy.hourly _ _ _ (
      field rpolicy.weekly _ _ _ (
        field rpolicy.monthly _ _ _ (
          field rpolicy.yearly _ true _ (λ i. ok (record {
            hourly = nonzero-count rpolicy.hourly i;
            daily = nonzero-count rpolicy.daily i;
            weekly = nonzero-count rpolicy.weekly i;
            monthly = nonzero-count rpolicy.monthly i;
            yearly = nonzero-count rpolicy.yearly i;
            within = if rpolicy.within == "" then none else some rpolicy.within;
          }))))))
