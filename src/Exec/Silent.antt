-- ===== src/Exec/Silent.antt =====
-- Properties of the state that no request can break, not even a deletion.
use volume_snapshot_mover.Prelude.{String, ◌∷◌}
use volume_snapshot_mover.Exec.{Kind, Call, ResticVars, State, request}
use volume_snapshot_mover.Exec.Keeps.{Keeps}
use volume_snapshot_mover.Exec.Stable.{Stable}
use volume_snapshot_mover.Client.{Client, delete_all_of}

pub record Silent {W : Type 0} (P : State W → Type 0) : Type 0 where
  pub logged :
      (k : Call) (w : W) (s : State W) → P s → P (record s { world = w; calls = k ∷ s.calls })
  pub moved : (w : W) (s : State W) → P s → P (record s { world = w })
  pub refilled : (v : ResticVars) (s : State W) → P s → P (record s { restic = v })

module _ {W : Type 0} {P : State W → Type 0} (si : Silent P) where
  pub Stable-of_Silent : Stable P
  Stable-of_Silent = record {
    recorded = λ k w s e h. si.logged k w s h;
    moved = si.moved;
    refilled = si.refilled;
  }

  pub delete_all_of-Keeps :
      (c : Client W) (k : Kind) (label value ns : String)
      → Keeps P (delete_all_of c k label value ns)
  unfolding delete_all_of request
  delete_all_of-Keeps c k label value ns = record {
    at = λ s h. si.logged _ (c.delete_matching k label value ns s.world).1 s h;
  }
