-- ===== src/Classes/Default.antt =====
-- The check for one default class against a count of the default classes.
use volume_snapshot_mover.Prelude.{
  ℕ, suc, leb, ◌≡◌, refl, Bool, true, false, some, List, [], ◌∷◌, if◌then◌else◌, arith,
}
use volume_snapshot_mover.Exec.{Error, Result, ok, err}
use volume_snapshot_mover.Api.Cluster.{StorageClass, VolumeSnapshotClass}
use volume_snapshot_mover.Classes.{
  volume_snapshot_class_default_key, storage_class_default_key, is_default, scan_snap_classes,
  scan_storage_classes, check_for_one_default_snap_class, check_for_one_default_storage_class,
}

-- How many elements satisfy the test.
unfoldable count_if : {A : Type 0} → (A → Bool) → List A → ℕ
count_if p [] = 0
count_if p (a ∷ xs) = let n = count_if p xs in if p a then suc n else n

pub default_snap_classes : List VolumeSnapshotClass → ℕ
default_snap_classes = count_if λ a. is_default volume_snapshot_class_default_key a.meta

pub default_storage_classes : List StorageClass → ℕ
default_storage_classes = count_if λ a. is_default storage_class_default_key a.meta

abbrev pub snap_class_answer : Bool → Result Bool
snap_class_answer true = ok true
snap_class_answer false =
    err (Error.message "cannot have more than one default volumeSnapshotClass")

abbrev pub storage_class_answer : Bool → Result Bool
storage_class_answer true = ok true
storage_class_answer false = err (Error.message "cannot have more than one default storageClass")

-- The places that are left for defaults.
abbrev room : Bool → ℕ
room true = 0
room false = 1

scan_snap_classes-count :
    (found : Bool) (items : List VolumeSnapshotClass)
    → scan_snap_classes found items
      ≡ snap_class_answer (leb (default_snap_classes items) (room found))
unfolding scan_snap_classes default_snap_classes count_if
scan_snap_classes-count true [] = refl
scan_snap_classes-count false [] = refl
scan_snap_classes-count true (a ∷ items) = ground (arith, scan_snap_classes-count true items)
scan_snap_classes-count false (a ∷ items) =
    ground (arith, scan_snap_classes-count true items, scan_snap_classes-count false items)

scan_storage_classes-count :
    (found : Bool) (items : List StorageClass)
    → scan_storage_classes found items
      ≡ storage_class_answer (leb (default_storage_classes items) (room found))
unfolding scan_storage_classes default_storage_classes count_if
scan_storage_classes-count true [] = refl
scan_storage_classes-count false [] = refl
scan_storage_classes-count true (a ∷ items) = ground (arith, scan_storage_classes-count true items)
scan_storage_classes-count false (a ∷ items) =
    ground (arith, scan_storage_classes-count true items, scan_storage_classes-count false items)

-- The checks of the snapshot classes and of the storage classes pass a list with at most one
-- class that is annotated as the default, no default at all included, and answer their error for
-- any list with more.
pub check_for_one_default-count :
    (vs_classes : List VolumeSnapshotClass) (classes : List StorageClass)
    → check_for_one_default_snap_class (some vs_classes)
        ≡ snap_class_answer (leb (default_snap_classes vs_classes) 1)
      × check_for_one_default_storage_class (some classes)
        ≡ storage_class_answer (leb (default_storage_classes classes) 1)
unfolding check_for_one_default_snap_class check_for_one_default_storage_class
check_for_one_default-count vs_classes classes =
    (scan_snap_classes-count false vs_classes, scan_storage_classes-count false classes)
