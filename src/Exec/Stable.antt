-- ===== src/Exec/Stable.antt =====
-- Properties of the state that no request but a deletion can break, and the runs that keep them.
use volume_snapshot_mover.Prelude.{String, ◌≡◌, refl, Bool, true, false, ◌∷◌}
use volume_snapshot_mover.Api.Meta.{NamespacedName}
use volume_snapshot_mover.Api.Backup.{VolumeSnapshotBackup}
use volume_snapshot_mover.Api.Restore.{VolumeSnapshotRestore}
use volume_snapshot_mover.Exec.{Kind, Call, Result, ResticVars, State, Exec, request, set_restic}
use volume_snapshot_mover.Exec.Keeps.{Keeps, Keeps-bind, keeps_rules}
use volume_snapshot_mover.Client.{
  Client, Resource, get_object, list_objects, create_or_update, update_vsb, update_vsb_status,
  update_vsr, update_vsr_status, now,
}

abbrev pub is_plain : Call → Bool
is_plain (Call.delete_all_of k label value ns) = false
is_plain _ = true

pub record Stable {W : Type 0} (P : State W → Type 0) : Type 0 where
  pub recorded :
      (k : Call) (w : W) (s : State W)
      → is_plain k ≡ true
      → P s
      → P (record s { world = w; calls = k ∷ s.calls })
  pub moved : (w : W) (s : State W) → P s → P (record s { world = w })
  pub refilled : (v : ResticVars) (s : State W) → P s → P (record s { restic = v })

module _ {W : Type 0} {P : State W → Type 0} (st : Stable P) where
  pub request-Keeps :
      {A : Type 0} (k : Call) (f : W → Result A × W) → is_plain k ≡ true → Keeps P (request k f)
  unfolding request
  request-Keeps k f e = record { at = λ s h. st.recorded k (f s.world).1 s e h }

  pub set_restic-Keeps : (v : ResticVars) → Keeps P (set_restic v)
  unfolding set_restic
  set_restic-Keeps v = record { at = st.refilled v }

  pub now-Keeps : (c : Client W) → Keeps P (now c)
  unfolding now
  now-Keeps c = record { at = λ s h. st.moved (c.clock s.world).1 s h }

module _ {W A : Type 0} {P : State W → Type 0} (st : Stable P) where
  pub get_object-Keeps :
      (k : Kind) (r : Resource W A) (key : NamespacedName) → Keeps P (get_object k r key)
  unfolding get_object
  get_object-Keeps k r key = request-Keeps st _ _ refl

  pub list_objects-Keeps :
      (k : Kind) (r : Resource W A) (ns : String) → Keeps P (list_objects k r ns)
  unfolding list_objects
  list_objects-Keeps k r ns = request-Keeps st _ _ refl

  pub create_or_update-Keeps :
      (k : Kind) (r : Resource W A) (key : NamespacedName) (obj : A) (f : A → Exec W A)
      → ((a : A) → Keeps P (f a))
      → Keeps P (create_or_update k r key obj f)
  unfolding create_or_update
  create_or_update-Keeps k r key obj f kf =
      Keeps-bind _ _ (request-Keeps st _ _ refl)
        λ found. Keeps-bind _ _ (kf found) (λ built. request-Keeps st _ _ refl)

module _ {W : Type 0} {P : State W → Type 0} (st : Stable P) (c : Client W) where
  pub update_vsb-Keeps : (v : VolumeSnapshotBackup) → Keeps P (update_vsb c v)
  unfolding update_vsb
  update_vsb-Keeps v = request-Keeps st _ _ refl

  pub update_vsb_status-Keeps : (v : VolumeSnapshotBackup) → Keeps P (update_vsb_status c v)
  unfolding update_vsb_status
  update_vsb_status-Keeps v = request-Keeps st _ _ refl

  pub update_vsr-Keeps : (v : VolumeSnapshotRestore) → Keeps P (update_vsr c v)
  unfolding update_vsr
  update_vsr-Keeps v = request-Keeps st _ _ refl

  pub update_vsr_status-Keeps : (v : VolumeSnapshotRestore) → Keeps P (update_vsr_status c v)
  unfolding update_vsr_status
  update_vsr_status-Keeps v = request-Keeps st _ _ refl

pub ruleset stable_rules = (
  keeps_rules, set_restic-Keeps, now-Keeps, get_object-Keeps, list_objects-Keeps,
  create_or_update-Keeps, update_vsb-Keeps, update_vsb_status-Keeps, update_vsr-Keeps,
  update_vsr_status-Keeps,
)
