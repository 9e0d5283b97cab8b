-- ===== src/Go/Strconv.antt =====
-- strconv: ParseBool, ParseInt in base 10 and Atoi on a 64-bit machine, with the value that each
-- returns beside an error.
use Prim.Native.Char.{code}
use Prim.Native.String.{[], ◌∷◌}
use volume_snapshot_mover.Prelude.{
  ℕ, ◌+◌, ◌-◌, ◌*◌, ◌^◌, ◌≤◌, ◌<◌, String, Bool, true, false, ◌&&◌, ◌||◌, Option, none, some, inl,
  inr, arith, ltb, leb, nat_eq, ◌==◌, Bool-cases, if◌then◌else◌,
}
use volume_snapshot_mover.Prelude.Int.{ℤ, pos, negsuc, pos_part, neg_part}

pub data NumError : Type 0 where
  syntax_error range_error : NumError

pub data Digits : Type 0 where
  value : ℕ → Digits
  bad : NumError → Digits

-- The digit loop of ParseUint: it stops at the first bad byte or at the first overflow.
unfoldable pub scan : (max_val : ℕ) → ℕ → String → Digits
scan max_val n [] = Digits.value n
scan max_val n (c ∷ s) =
    let rest = scan max_val (n * 10 + (code c - 48)) s in
    if leb 48 (code c) && leb (code c) 57
    then (if ltb max_val (n * 10 + (code c - 48)) then Digits.bad NumError.range_error else rest)
    else Digits.bad NumError.syntax_error

pub record Parsed : Type 0 where
  pub value : ℤ
  pub error : Option NumError

-- `-n` as an integer.
abbrev pub negate : ℕ → ℤ
negate n = if nat_eq n 0 then pos 0 else negsuc (n - 1)

-- The end of ParseInt: the bounds of the signed type.
unfoldable pub clamp : (cutoff : ℕ) (neg : Bool) → Digits → Parsed
clamp cutoff neg (Digits.bad NumError.syntax_error) = record {
  value = pos 0;
  error = some NumError.syntax_error;
}
clamp cutoff true (Digits.bad NumError.range_error) = record {
  value = negate cutoff;
  error = some NumError.range_error;
}
clamp cutoff false (Digits.bad NumError.range_error) = record {
  value = pos (cutoff - 1);
  error = some NumError.range_error;
}
clamp cutoff true (Digits.value n) =
    if ltb cutoff n
    then record { value = negate cutoff; error = some NumError.range_error }
    else record { value = negate n; error = none }
clamp cutoff false (Digits.value n) =
    if leb cutoff n
    then record { value = pos (cutoff - 1); error = some NumError.range_error }
    else record { value = pos n; error = none }

-- ParseUint refuses the empty text.
unfoldable pub scan_all : ℕ → String → Digits
unfolding scan
scan_all max_val s = if s == "" then Digits.bad NumError.syntax_error else scan max_val 0 s

unfoldable pub parse_int : (cutoff max_val : ℕ) → String → Parsed
unfolding scan_all clamp
parse_int cutoff max_val [] = record { value = pos 0; error = some NumError.syntax_error }
parse_int cutoff max_val (c ∷ s) =
    if nat_eq (code c) b'-'
    then clamp cutoff true (scan_all max_val s)
    else if nat_eq (code c) b'+'
    then clamp cutoff false (scan_all max_val s)
    else clamp cutoff false (scan_all max_val (c ∷ s))

-- `strconv.ParseInt(s, 10, 32)` and `strconv.Atoi(s)`
unfoldable pub parse_int32 : String → Parsed
unfolding parse_int
parse_int32 s = parse_int (2 ^ 31) (2 ^ 32 - 1) s

unfoldable pub atoi : String → Parsed
unfolding parse_int
atoi s = parse_int (2 ^ 63) (2 ^ 64 - 1) s

-- The first value of `strconv.ParseBool(s)`.
unfoldable pub parse_bool : String → Bool
parse_bool s = s == "1" || s == "t" || s == "T" || s == "true" || s == "TRUE" || s == "True"

-- The value lies in the signed type of the cut-off, errors included.
abbrev pub InBounds : ℕ → ℤ → Type 0
InBounds cutoff n = (pos_part n < cutoff) × (neg_part n ≤ cutoff)

clamp-InBounds :
    (cutoff : ℕ) (neg : Bool) (d : Digits) → 0 < cutoff → InBounds cutoff (clamp cutoff neg d).value
unfolding clamp
clamp-InBounds cutoff neg (Digits.bad NumError.syntax_error) h = ground arith
clamp-InBounds cutoff true (Digits.bad NumError.range_error) h = ground arith
clamp-InBounds cutoff false (Digits.bad NumError.range_error) h = ground arith
clamp-InBounds cutoff true (Digits.value n) h = ground arith
clamp-InBounds cutoff false (Digits.value n) h = ground arith

pub parse_int-InBounds :
    (cutoff max_val : ℕ) (s : String)
    → 0 < cutoff
    → InBounds cutoff (parse_int cutoff max_val s).value
unfolding parse_int
parse_int-InBounds cutoff max_val [] h = (h, omega arith)
parse_int-InBounds cutoff max_val (c ∷ s) h = elim (Bool-cases (nat_eq (code c) b'-')) [
  | inl minus ↦ rw minus (clamp-InBounds cutoff true (scan_all max_val s) h)
  | inr other ↦ elim (Bool-cases (nat_eq (code c) b'+')) [
    | inl plus ↦ rw (other, plus) (clamp-InBounds cutoff false (scan_all max_val s) h)
    | inr digit ↦ rw (other, digit) (clamp-InBounds cutoff false (scan_all max_val (c ∷ s)) h)
  ]
]

pub parse_int32-InBounds : (s : String) → InBounds (2 ^ 31) (parse_int32 s).value
unfolding parse_int32
parse_int32-InBounds s = parse_int-InBounds (2 ^ 31) (2 ^ 32 - 1) s (omega arith)

pub atoi-InBounds : (s : String) → InBounds (2 ^ 63) (atoi s).value
unfolding atoi
atoi-InBounds s = parse_int-InBounds (2 ^ 63) (2 ^ 64 - 1) s (omega arith)
