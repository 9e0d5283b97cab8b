-- ===== src/Events/Filter.antt =====
-- controllers/predicate.go, with the group, the version and the kinds of
-- api/v1alpha1/groupversion_info.go
use volume_snapshot_mover.Prelude.{
  String, Bool, false, not, ◌&&◌, ◌||◌, Option, none, some, List, [], ◌∷◌, text_at, ◌==◌,
}
use volume_snapshot_mover.Prelude.Tests.{nat_eq}
use volume_snapshot_mover.Api.Meta.{ObjectMeta}
use volume_snapshot_mover.Secret.Keys.{vsb_label, vsr_label}

-- schema.GroupVersionKind
pub record GroupVersionKind : Type 0 where
  pub group : String
  pub version : String
  pub kind : String

abbrev pub group_name : String
group_name = "datamover.oadp.openshift.io"

abbrev pub version_name : String
version_name = "v1alpha1"

abbrev pub vsb_kind : String
vsb_kind = "VolumeSnapshotBackup"

abbrev pub vsr_kind : String
vsr_kind = "VolumeSnapshotRestore"

-- What is used of client.Object and of runtime.Scheme, for any type of objects: the metadata, and
-- ObjectKinds, which is `none` where it ends in an error; and what predicate.Funcs of
-- controller-runtime answers for an event whose function is not given, which is documented to be
-- true.
pub record Scheme (O : Type 0) : Type 0 where
  pub meta : O → ObjectMeta
  pub object_kinds : O → Option (List GroupVersionKind)
  pub unset_func : Bool

-- event.UpdateEvent, event.CreateEvent, event.DeleteEvent and event.GenericEvent
pub data Event (O : Type 0) : Type 0 where
  update : (object_old object_new : O) → Event O
  create : (object : O) → Event O
  delete : (object : O) → (delete_state_unknown : Bool) → Event O
  generic : (object : O) → Event O

-- What both isObjectOurs functions do, with their kind and their label.
unfoldable pub is_of_kinds :
    (kind label : String) → ObjectMeta → Option (List GroupVersionKind) → Bool
is_of_kinds kind label m none = false
is_of_kinds kind label m (some []) = false
is_of_kinds kind label m (some (gvk ∷ [])) =
    (gvk.group == group_name && gvk.version == version_name && gvk.kind == kind)
    || not (text_at m.labels label == "")
is_of_kinds kind label m (some (gvk ∷ other ∷ more)) = false

module _ {O : Type 0} (scheme : Scheme O) where
  unfoldable pub is_object_ours_backup : O → Bool
  unfolding is_of_kinds
  is_object_ours_backup object =
      is_of_kinds vsb_kind vsb_label (scheme.meta object) (scheme.object_kinds object)

  unfoldable pub is_object_ours_restore : O → Bool
  unfolding is_of_kinds
  is_object_ours_restore object =
      is_of_kinds vsr_kind vsr_label (scheme.meta object) (scheme.object_kinds object)

  unfoldable pub volume_snapshot_backup_predicate : Event O → Bool
  unfolding is_object_ours_backup
  volume_snapshot_backup_predicate (Event.update old new) =
      not (nat_eq (scheme.meta old).generation (scheme.meta new).generation)
      && is_object_ours_backup old
  volume_snapshot_backup_predicate (Event.create object) = is_object_ours_backup object
  volume_snapshot_backup_predicate (Event.delete object unknown) =
      not unknown && is_object_ours_backup object
  volume_snapshot_backup_predicate (Event.generic object) = scheme.unset_func

  unfoldable pub volume_snapshot_restore_predicate : Event O → Bool
  unfolding is_object_ours_restore
  volume_snapshot_restore_predicate (Event.update old new) =
      not (nat_eq (scheme.meta old).generation (scheme.meta new).generation)
      && is_object_ours_restore old
  volume_snapshot_restore_predicate (Event.create object) = is_object_ours_restore object
  volume_snapshot_restore_predicate (Event.delete object unknown) =
      not unknown && is_object_ours_restore object
  volume_snapshot_restore_predicate (Event.generic object) = scheme.unset_func
