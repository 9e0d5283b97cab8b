-- ===== src/Exec.antt =====
-- How the controllers' Go functions run: a state that survives an error, three ways to end, and
-- the calls to the API server recorded in the order of their making.
pub mod Keeps
pub mod Stable
pub mod Silent
pub mod Counts
pub mod Answers
pub mod Safe
use volume_snapshot_mover.Prelude.{
  String, Bool, true, false, Option, none, some, List, ◌∷◌, if◌then◌else◌,
}
use volume_snapshot_mover.Prelude.Int.{ℤ}
use volume_snapshot_mover.Api.Meta.{NamespacedName}
use volume_snapshot_mover.Api.Backup.{VolumeSnapshotBackup}
use volume_snapshot_mover.Api.Restore.{VolumeSnapshotRestore}

-- A Go `error`: the one that `IsNotFound` tells apart, or any other with its text.
pub data Error : Type 0 where
  not_found : Error
  message : String → Error

-- `ok a` is `(a, nil)`; `err e` is `(zero value, e)`; `panic` is a nil dereference or `panic`.
-- Every `(bool, error)` function of the source returns `false` with an error.
pub data Result (A : Type 0) : Type 0 where
  ok : A → Result A
  err : Error → Result A
  panic : Result A

pub data Kind : Type 0 where
  volume_snapshot_backup volume_snapshot_restore secret config_map service_account : Kind
  storage_class volume_snapshot_class volume_snapshot_content volume_snapshot : Kind
  persistent_volume_claim pod deployment velero_backup velero_restore : Kind
  replication_source replication_destination : Kind

-- A request to the API server. `apply` is the write of a CreateOrUpdate.
pub data Call : Type 0 where
  get : Kind → NamespacedName → Call
  list_all : Kind → String → Call
  apply : Kind → NamespacedName → Call
  update_vsb : VolumeSnapshotBackup → Call
  status_vsb : VolumeSnapshotBackup → Call
  update_vsr : VolumeSnapshotRestore → Call
  status_vsr : VolumeSnapshotRestore → Call
  delete_all_of : Kind → (label : String) → (value : String) → (namespace : String) → Call

-- The package variables of controllers/common.go that hold restic values.
pub record ResticVars : Type 0 where
  pub aws_access : String
  pub aws_secret : String
  pub aws_default_region : String
  pub azure_account_name : String
  pub azure_account_key : String
  pub google_application_credentials : String
  pub restic_custom_ca : String
  pub restic_password : String
  pub restic_repo : String

-- What a reconciler runs on: the world outside the process, the calls made so far (the latest
-- first) and the package variables.
pub record State (W : Type 0) : Type 0 where
  pub world : W
  pub calls : List Call
  pub processing_vsbs : ℤ
  pub vsb_batch_number : ℤ
  pub processing_vsrs : ℤ
  pub vsr_batch_number : ℤ
  pub restic : ResticVars

abbrev pub Exec : Type 0 → Type 0 → Type 0
Exec W A = State W → Result A × State W

module _ {W A : Type 0} where
  unfoldable pub pure : A → Exec W A
  pure a s = (ok a, s)

  -- `return …, err`
  unfoldable pub fail : Error → Exec W A
  fail e s = (err e, s)

  unfoldable pub crash : Exec W A
  crash s = (panic, s)

  -- A request: it is recorded, and the world answers and changes as it likes.
  unfoldable pub request : Call → (W → Result A × W) → Exec W A
  request c f s = let (r, w) = f s.world in (r, record s { world = w; calls = c ∷ s.calls })

  -- `*p`
  unfoldable pub deref : Option A → Exec W A
  deref none = crash
  deref (some a) = pure a

  -- An outcome that has been computed already.
  unfoldable pub from_result : Result A → Exec W A
  from_result r s = (r, s)

module _ {W A B : Type 0} where
  abbrev pub resume : Result A → (A → Exec W B) → Exec W B
  resume (ok a) f s = f a s
  resume (err e) f s = (err e, s)
  resume panic f s = (panic, s)

  -- A call whose error is returned at once.
  infixl 10 ◌>>=◌ ◌>>◌
  unfoldable pub ◌>>=◌ : Exec W A → (A → Exec W B) → Exec W B
  unfolding pure fail crash request deref from_result
  ◌>>=◌ m f s = let (r, s') = m s in resume r f s'

  abbrev pub ◌>>◌ : Exec W A → Exec W B → Exec W B
  m >> n = m >>= λ _. n

  abbrev pub resume_found : Result A → Exec W B → (A → Exec W B) → Exec W B
  resume_found (ok a) missing f s = f a s
  resume_found (err Error.not_found) missing f s = missing s
  resume_found (err (Error.message t)) missing f s = (err (Error.message t), s)
  resume_found panic missing f s = (panic, s)

  -- `if err := …; err != nil { if IsNotFound(err) { missing }; return …, err }`
  unfoldable pub or_missing : Exec W A → Exec W B → (A → Exec W B) → Exec W B
  or_missing m missing f s = let (r, s') = m s in resume_found r missing f s'

  abbrev pub resume_any : Result A → Exec W B → (A → Exec W B) → Exec W B
  resume_any (ok a) otherwise f s = f a s
  resume_any (err e) otherwise f s = otherwise s
  resume_any panic otherwise f s = (panic, s)

  -- `if p == nil { … }` in front of what uses `*p`.
  unfoldable pub if_nil : Option A → Exec W B → (A → Exec W B) → Exec W B
  if_nil none missing f = missing
  if_nil (some a) missing f = f a

  -- `if err := …; err != nil { otherwise }`
  unfoldable pub or_else : Exec W A → Exec W B → (A → Exec W B) → Exec W B
  or_else m otherwise f s = let (r, s') = m s in resume_any r otherwise f s'

module _ {W A : Type 0} where
  abbrev pub settle : Result A → Exec W (Result A)
  settle panic s = (panic, s)
  settle r s = (ok r, s)

  -- `x, err := …` where the error is looked at later.
  unfoldable pub attempt : Exec W A → Exec W (Result A)
  attempt m s = let (r, s') = m s in settle r s'

module _ {W : Type 0} where
  -- Reads of the package variables, and writes to them.
  unfoldable pub get_state : Exec W (State W)
  get_state s = (ok s, s)

  unfoldable pub set_processing_vsbs : ℤ → Exec W Unit
  set_processing_vsbs n s = (ok tt, record s { processing_vsbs = n })

  unfoldable pub set_vsb_batch_number : ℤ → Exec W Unit
  set_vsb_batch_number n s = (ok tt, record s { vsb_batch_number = n })

  unfoldable pub set_processing_vsrs : ℤ → Exec W Unit
  set_processing_vsrs n s = (ok tt, record s { processing_vsrs = n })

  unfoldable pub set_vsr_batch_number : ℤ → Exec W Unit
  set_vsr_batch_number n s = (ok tt, record s { vsr_batch_number = n })

  unfoldable pub set_restic : ResticVars → Exec W Unit
  set_restic v s = (ok tt, record s { restic = v })
