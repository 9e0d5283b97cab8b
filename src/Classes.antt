-- ===== src/Classes.antt =====
-- checkForOneDefaultSnapClass and checkForOneDefaultStorageClass of controllers/common.go
pub mod Default
use volume_snapshot_mover.Prelude.{
  String, Bool, true, false, Option, none, some, List, [], ◌∷◌, text_at, if◌then◌else◌,
}
use volume_snapshot_mover.Go.Strconv.{parse_bool}
use volume_snapshot_mover.Exec.{Error, Result, ok, err}
use volume_snapshot_mover.Api.Meta.{ObjectMeta}
use volume_snapshot_mover.Api.Cluster.{StorageClass, VolumeSnapshotClass}

abbrev pub volume_snapshot_class_default_key : String
volume_snapshot_class_default_key = "snapshot.storage.kubernetes.io/is-default-class"

abbrev pub storage_class_default_key : String
storage_class_default_key = "storageclass.kubernetes.io/is-default-class"

-- `strconv.ParseBool(class.Annotations[key])`, its error ignored
unfoldable pub is_default : String → ObjectMeta → Bool
unfolding parse_bool
is_default key meta = parse_bool (text_at meta.annotations key)

-- The two loops, with the flag `foundDefaultClass`.
unfoldable pub scan_snap_classes : Bool → List VolumeSnapshotClass → Result Bool
scan_snap_classes found [] = ok true
scan_snap_classes found (vs_class ∷ items) =
    let rest = scan_snap_classes true items in
    let others = scan_snap_classes found items in
    if is_default volume_snapshot_class_default_key vs_class.meta
    then (if found
        then err (Error.message "cannot have more than one default volumeSnapshotClass")
        else rest)
    else others

unfoldable pub scan_storage_classes : Bool → List StorageClass → Result Bool
scan_storage_classes found [] = ok true
scan_storage_classes found (storage_class ∷ items) =
    let rest = scan_storage_classes true items in
    let others = scan_storage_classes found items in
    if is_default storage_class_default_key storage_class.meta
    then (if found
        then err (Error.message "cannot have more than one default storageClass")
        else rest)
    else others

-- The list is a pointer: `none` is nil.
unfoldable pub check_for_one_default_snap_class : Option (List VolumeSnapshotClass) → Result Bool
unfolding scan_snap_classes
check_for_one_default_snap_class none =
    err (Error.message "nil vsClassList in checkForOneDefaultSnapClass")
check_for_one_default_snap_class (some items) = scan_snap_classes false items

unfoldable pub check_for_one_default_storage_class : Option (List StorageClass) → Result Bool
unfolding scan_storage_classes
check_for_one_default_storage_class none =
    err (Error.message "nil storageClassList in checkForOneDefaultStorageClass")
check_for_one_default_storage_class (some items) = scan_storage_classes false items
