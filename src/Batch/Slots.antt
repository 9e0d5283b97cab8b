-- ===== src/Batch/Slots.antt =====
-- What a queue of controllers/common.go promises, without its controller: a number of places, of
-- which some are taken, and three moves.
pub mod Reached
pub mod Counter
use volume_snapshot_mover.Prelude.{◌≡◌, refl, ◌∙◌, true, false, ◌^◌, ◌-◌, arith}
use volume_snapshot_mover.Prelude.Int.{
  ℤ, pos, pos_part, incr, decr, incr-le, decr-le, le-zero, ltb_ℤ, eq_ℤ, ◌≤ℤ◌,
}
use volume_snapshot_mover.Go.Strconv.{InBounds}

pub record Slots : Type 0 where
  pub taken : ℤ
  pub limit : ℤ

-- The limit is set to an integer of Go while it is still zero; a place is taken where there is
-- room; a place is given back.
pub data Move (m n : Slots) : Type 0 where
  load :
      (k : ℤ)
      → eq_ℤ m.limit (pos 0) ≡ true
      → InBounds (2 ^ 63) k
      → n ≡ record m { limit = k }
      → Move m n
  admit : ltb_ℤ m.taken m.limit ≡ true → n ≡ record m { taken = incr m.taken } → Move m n
  release : n ≡ record m { taken = decr m.taken } → Move m n

pub data Reach (m : Slots) : Slots → Type 0 where
  here : Reach m m
  next : {n o : Slots} → Reach m n → Move n o → Reach m o

-- No more places are taken than there are, if their number is positive; else none.
abbrev pub IsWithin : Slots → Type 0
IsWithin m = m.taken ≤ℤ pos (pos_part m.limit)

Move-IsWithin : (m n : Slots) → Move m n → IsWithin m → IsWithin n
Move-IsWithin m n (Move.load k zero b e) h =
    let none_taken = le-zero m.taken m.limit zero h in
    let goal : IsWithin (record m { limit = k }) = omega arith in rw e goal
Move-IsWithin m n (Move.admit below e) h = rw e (incr-le m.taken m.limit below)
Move-IsWithin m n (Move.release e) h = rw e (decr-le m.taken (pos (pos_part m.limit)) h)

pub Reach-IsWithin : (m n : Slots) → Reach m n → IsWithin m → IsWithin n
Reach-IsWithin m n Reach.here h = h
Reach-IsWithin m n (Reach.next {n = o} r mv) h = Move-IsWithin o n mv (Reach-IsWithin m o r h)

Move-fixed : (m n : Slots) → Move m n → eq_ℤ m.limit (pos 0) ≡ false → n.limit ≡ m.limit
Move-fixed m n (Move.load k zero b e) h = absurd (cc)
Move-fixed m n (Move.admit below e) h = rw e refl
Move-fixed m n (Move.release e) h = rw e refl

-- A limit is loaded once.
pub Reach-fixed : (m n : Slots) → Reach m n → eq_ℤ m.limit (pos 0) ≡ false → n.limit ≡ m.limit
Reach-fixed m n Reach.here h = refl
Reach-fixed m n (Reach.next {n = o} r mv) h =
    let same = Reach-fixed m o r h in Move-fixed o n mv (rw same h) ∙ same
