-- ===== src/Backup/Source/Retain.antt =====
-- configureRepSourceSnapshotRetainPolicy of controllers/replicationsource.go
pub mod Exact
use volume_snapshot_mover.Prelude.{String, Option, none, some, ◌==◌, if◌then◌else◌}
use volume_snapshot_mover.Prelude.Int.{ℤ, pos, eq_ℤ}
use volume_snapshot_mover.Go.Strconv.{Parsed, parse_int32}
use volume_snapshot_mover.Go.Word.{to_int32}
use volume_snapshot_mover.Secret.Build.{RetainPolicy}
use volume_snapshot_mover.Api.VolSync.{ResticRetainPolicy}
use volume_snapshot_mover.Exec.{Error, Result, ok, err, panic}

abbrev pub checked : Parsed → Result ℤ
checked p = elim p.error [ none ↦ ok p.value | some e ↦ err (Error.message "strconv.ParseInt") ]

-- `if len(s) > 0 { n, err = strconv.ParseInt(s, 10, 32) }` over a zero `n`
unfoldable pub parse_or_zero : String → Result ℤ
parse_or_zero s = if s == "" then ok (pos 0) else checked (parse_int32 s)

-- `if n != 0 { p = pointer.Int32(int32(n)) }` over a nil `p`
unfoldable pub nonzero : ℤ → Option ℤ
nonzero n = if eq_ℤ n (pos 0) then none else some (to_int32 n)

abbrev pub and_then : {A B : Type 0} → Result A → (A → Result B) → Result B
and_then (ok a) f = f a
and_then (err e) f = err e
and_then panic f = panic

unfoldable pub configure_rep_source_snapshot_retain_policy :
    RetainPolicy → Result ResticRetainPolicy
configure_rep_source_snapshot_retain_policy rpolicy =
    and_then (parse_or_zero rpolicy.daily) λ daily.
      and_then (parse_or_zero rpolicy.hourly) λ hourly.
        and_then (parse_or_zero rpolicy.weekly) λ weekly.
          and_then (parse_or_zero rpolicy.monthly) λ monthly.
            and_then (parse_or_zero rpolicy.yearly) λ yearly. ok (record {
              hourly = nonzero hourly;
              daily = nonzero daily;
              weekly = nonzero weekly;
              monthly = nonzero monthly;
              yearly = nonzero yearly;
              within = if rpolicy.within == "" then none else some rpolicy.within;
            })
