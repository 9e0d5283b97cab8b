-- ===== src/Go/Word.antt =====
-- Go's conversion `int32(x)` of an int64.
use Prim.Native.Nat.{◌%◌}
use volume_snapshot_mover.Prelude.{ℕ, ◌-◌, ◌^◌, ◌≡◌, arith, ltb, if◌then◌else◌}
use volume_snapshot_mover.Prelude.Int.{ℤ, pos, negsuc}
use volume_snapshot_mover.Go.Strconv.{InBounds}

-- The bit pattern r as a signed number.
unfoldable pub signed32 : ℕ → ℤ
signed32 r = if ltb r (2 ^ 31) then pos r else negsuc (2 ^ 32 - 1 - r)

unfoldable pub to_int32 : ℤ → ℤ
unfolding signed32
to_int32 (pos n) = signed32 (n % 2 ^ 32)
to_int32 (negsuc n) = signed32 (2 ^ 32 - 1 - n % 2 ^ 32)

-- The conversion changes nothing in the range of an int32.
pub to_int32-InBounds : (n : ℤ) → InBounds (2 ^ 31) n → to_int32 n ≡ n
unfolding to_int32
to_int32-InBounds (pos n) h = ground arith
to_int32-InBounds (negsuc n) h = ground arith
