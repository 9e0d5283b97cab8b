-- ===== src/Config/Exact/Turns.antt =====
-- What one key of the ConfigMap does to the volume options of the source and of the destination.
use volume_snapshot_mover.Prelude.{
  String, ◌≡◌, refl, some, [], ◌∷◌, StringMap, text_at, ◌==◌, eq_iff, if◌then◌else◌, Bool-cases,
  inl, inr,
}
use volume_snapshot_mover.Api.VolSync.{VolumeOptions}
use volume_snapshot_mover.Secret.Built.{other_key}
use volume_snapshot_mover.Config.{source_storage_class_name, source_access_mode}
use volume_snapshot_mover.Backup.Source.Options.{set_source_option}
use volume_snapshot_mover.Restore.Destination.{
  destination_storage_class_name, destination_access_mode, set_destination_option,
}

-- One turn of the loop for the source, field by field.
module _ (m : StringMap String) where
  pub source-class :
      (key : String) (o : VolumeOptions)
      → (set_source_option m key o).storage_class_name ≡ (
          if key == source_storage_class_name
          then some (text_at m source_storage_class_name)
          else o.storage_class_name)
  unfolding set_source_option
  source-class key o = elim (Bool-cases (key == source_storage_class_name)) [
    | inl e ↦ rw (e, (eq_iff key source_storage_class_name).0 e) refl
    | inr e ↦ elim (Bool-cases (key == source_access_mode)) [
      | inl f ↦ rw (e, f) refl
      | inr f ↦ rw (e, f) refl
    ]
  ]

  pub source-modes :
      (key : String) (o : VolumeOptions)
      → (set_source_option m key o).access_modes ≡ (
          if key == source_access_mode
          then some (text_at m source_access_mode ∷ [])
          else o.access_modes)
  unfolding set_source_option
  source-modes key o =
      let other = other_key key source_storage_class_name source_access_mode refl in
      elim (Bool-cases (key == source_storage_class_name)) [
        | inl e ↦ rw (e, other e) refl
        | inr e ↦ elim (Bool-cases (key == source_access_mode)) [
          | inl f ↦ rw (e, f, (eq_iff key source_access_mode).0 f) refl
          | inr f ↦ rw (e, f) refl
        ]
      ]

  pub source-rest :
      (key : String) (o : VolumeOptions)
      → (set_source_option m key o).copy_method ≡ o.copy_method
        × (set_source_option m key o).capacity ≡ o.capacity
        × (set_source_option m key o).volume_snapshot_class_name ≡ o.volume_snapshot_class_name
  unfolding set_source_option
  source-rest key o = elim (Bool-cases (key == source_storage_class_name)) [
    | inl e ↦ rw e (refl, refl, refl)
    | inr e ↦ elim (Bool-cases (key == source_access_mode)) [
      | inl f ↦ rw (e, f) (refl, refl, refl)
      | inr f ↦ rw (e, f) (refl, refl, refl)
    ]
  ]

-- One turn of the loop for the destination, field by field.
module _ (m : StringMap String) where
  pub destination-class :
      (key : String) (o : VolumeOptions)
      → (set_destination_option m key o).storage_class_name ≡ (
          if key == destination_storage_class_name
          then some (text_at m destination_storage_class_name)
          else o.storage_class_name)
  unfolding set_destination_option
  destination-class key o = elim (Bool-cases (key == destination_storage_class_name)) [
    | inl e ↦ rw (e, (eq_iff key destination_storage_class_name).0 e) refl
    | inr e ↦ elim (Bool-cases (key == destination_access_mode)) [
      | inl f ↦ rw (e, f) refl
      | inr f ↦ rw (e, f) refl
    ]
  ]

  pub destination-modes :
      (key : String) (o : VolumeOptions)
      → (set_destination_option m key o).access_modes ≡ (
          if key == destination_access_mode
          then some (text_at m destination_access_mode ∷ [])
          else o.access_modes)
  unfolding set_destination_option
  destination-modes key o =
      let other = other_key key destination_storage_class_name destination_access_mode refl in
      elim (Bool-cases (key == destination_storage_class_name)) [
        | inl e ↦ rw (e, other e) refl
        | inr e ↦ elim (Bool-cases (key == destination_access_mode)) [
          | inl f ↦ rw (e, f, (eq_iff key destination_access_mode).0 f) refl
          | inr f ↦ rw (e, f) refl
        ]
      ]

  pub destination-rest :
      (key : String) (o : VolumeOptions)
      → (set_destination_option m key o).copy_method ≡ o.copy_method
        × (set_destination_option m key o).capacity ≡ o.capacity
        × (set_destination_option m key o).volume_snapshot_class_name ≡ o.volume_snapshot_class_name
  unfolding set_destination_option
  destination-rest key o = elim (Bool-cases (key == destination_storage_class_name)) [
    | inl e ↦ rw e (refl, refl, refl)
    | inr e ↦ elim (Bool-cases (key == destination_access_mode)) [
      | inl f ↦ rw (e, f) (refl, refl, refl)
      | inr f ↦ rw (e, f) (refl, refl, refl)
    ]
  ]
