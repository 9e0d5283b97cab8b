-- ===== src/Prelude/Int.antt =====
-- The program's `int` and `int64` counters and sizes: integers over the native numbers.
use Prim.Native.Nat.{ℕ, suc, ◌+◌, ◌-◌, ◌≤◌, ◌<◌}
use mathlib.Core.Path.{◌≡◌}
use mathlib.Core.Bool.{Bool, true}
use native.Mathlib.Omega.{arith}
use volume_snapshot_mover.Prelude.Tests.{ltb, leb, nat_eq, if◌then◌else◌}

-- `negsuc n` is -(n + 1).
pub data ℤ : Type 0 where
  pos : ℕ → ℤ
  negsuc : ℕ → ℤ

abbrev pub pos_part : ℤ → ℕ
pos_part (pos n) = n
pos_part (negsuc n) = 0

abbrev pub neg_part : ℤ → ℕ
neg_part (pos n) = 0
neg_part (negsuc n) = suc n

-- The integer a - b of two numbers.
abbrev pub sub_ℕ : ℕ → ℕ → ℤ
sub_ℕ a b = if leb b a then pos (a - b) else negsuc (b - a - 1)

abbrev pub incr : ℤ → ℤ
incr a = sub_ℕ (pos_part a + 1) (neg_part a)

abbrev pub decr : ℤ → ℤ
decr a = sub_ℕ (pos_part a) (neg_part a + 1)

infix 50 ◌≤ℤ◌ ◌<ℤ◌
abbrev pub ◌≤ℤ◌ : ℤ → ℤ → Type 0
a ≤ℤ b = pos_part a + neg_part b ≤ pos_part b + neg_part a

abbrev pub ◌<ℤ◌ : ℤ → ℤ → Type 0
a <ℤ b = pos_part a + neg_part b < pos_part b + neg_part a

abbrev pub ltb_ℤ : ℤ → ℤ → Bool
ltb_ℤ a b = ltb (pos_part a + neg_part b) (pos_part b + neg_part a)

abbrev pub leb_ℤ : ℤ → ℤ → Bool
leb_ℤ a b = leb (pos_part a + neg_part b) (pos_part b + neg_part a)

abbrev pub eq_ℤ : ℤ → ℤ → Bool
eq_ℤ a b = nat_eq (pos_part a + neg_part b) (pos_part b + neg_part a)

-- Adding one undoes taking one away.
pub incr-decr : (a : ℤ) → incr (decr a) ≡ a
incr-decr a = ground arith

pub decr-incr : (a : ℤ) → decr (incr a) ≡ a
decr-incr a = ground arith

-- A counter below its bound stays within the bound when it goes up, and when it goes down.
pub incr-le : (p b : ℤ) → ltb_ℤ p b ≡ true → incr p ≤ℤ pos (pos_part b)
incr-le p b h = ground arith

pub decr-le : (p b : ℤ) → p ≤ℤ b → decr p ≤ℤ b
decr-le p b h = ground arith

pub le-zero : (p b : ℤ) → eq_ℤ b (pos 0) ≡ true → p ≤ℤ pos (pos_part b) → p ≤ℤ pos 0
le-zero p b e h = ground arith
