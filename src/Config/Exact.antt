-- ===== src/Config/Exact.antt =====
-- What a ConfigMap of the data mover makes of the volume options of the source and of the
-- destination.
pub mod Turns
use volume_snapshot_mover.Prelude.{
  String, Bool, true, false, ◌||◌, ◌≡◌, refl, ◌∙◌, Option, none, some, [], ◌∷◌, StringMap, text_at,
  ◌==◌, eq_iff, if◌then◌else◌, Bool-cases, inl, inr,
}
use volume_snapshot_mover.Api.Meta.{Quantity}
use volume_snapshot_mover.Api.Backup.{VolumeSnapshotBackup}
use volume_snapshot_mover.Api.Restore.{VolumeSnapshotRestore}
use volume_snapshot_mover.Api.Cluster.{PersistentVolumeClaim, ConfigMap}
use volume_snapshot_mover.Api.VolSync.{CopyMethod, VolumeOptions}
use volume_snapshot_mover.Secret.Built.{other_key}
use volume_snapshot_mover.Config.{
  source_storage_class_name, source_access_mode, config_data, range_keys,
}
use volume_snapshot_mover.Backup.Source.Options.{
  set_source_option, configure_rep_source_vol_options,
}
use volume_snapshot_mover.Restore.Destination.{
  destination_storage_class_name, destination_access_mode, set_destination_option,
  configure_rep_dest_vol_options,
}
use volume_snapshot_mover.Config.Exact.Turns.{
  source-class, source-modes, source-rest, destination-class, destination-modes, destination-rest,
}

-- The map has an entry under the key.
pub has_key : String → StringMap String → Bool
has_key k [] = false
has_key k ((key, val) ∷ m) = key == k || has_key k m

module _ {A : Type 0} (step : String → VolumeOptions → VolumeOptions)
    (field : VolumeOptions → A) where
  -- A field that one key sets to one value.
  range_keys-set :
      (k : String) (v : A)
      → ((key : String) (o : VolumeOptions)
          → field (step key o) ≡ (if key == k then v else field o))
      → (rest : StringMap String) (o : VolumeOptions)
      → field (range_keys step rest o) ≡ (if has_key k rest then v else field o)
  unfolding range_keys has_key
  range_keys-set k v turn [] o = refl
  range_keys-set k v turn ((key, val) ∷ rest) o =
      range_keys-set k v turn rest (step key o)
      ∙ (λ i. if has_key k rest then v else turn key o i)
      ∙ either (key == k) (has_key k rest) v (field o)
    where
      either :
          (a b : Bool) (x y : A) → (if b then x else if a then x else y) ≡ (if a || b then x else y)
      either true true x y = refl
      either true false x y = refl
      either false true x y = refl
      either false false x y = refl

  -- A field that no key sets.
  range_keys-same :
      ((key : String) (o : VolumeOptions) → field (step key o) ≡ field o)
      → (rest : StringMap String) (o : VolumeOptions) → field (range_keys step rest o) ≡ field o
  unfolding range_keys
  range_keys-same turn [] o = refl
  range_keys-same turn ((key, val) ∷ rest) o = range_keys-same turn rest (step key o) ∙ turn key o

-- The options with their storage class and access mode from the ConfigMap's data.
pub with_config : (class_key mode_key : String) → StringMap String → VolumeOptions → VolumeOptions
with_config class_key mode_key m o = record o {
  storage_class_name =
      if has_key class_key m then some (text_at m class_key) else o.storage_class_name;
  access_modes = if has_key mode_key m then some (text_at m mode_key ∷ []) else o.access_modes;
}

module _ (m : StringMap String) (o : VolumeOptions) where
  source-exact :
      range_keys (set_source_option m) m o
      ≡ with_config source_storage_class_name source_access_mode m o
  unfolding with_config
  source-exact = λ i. record {
    copy_method =
        range_keys-same (set_source_option m) (λ p. p.copy_method) (λ k p. (source-rest m k p).0) m
          o i;
    capacity =
        range_keys-same (set_source_option m) (λ p. p.capacity) (λ k p. (source-rest m k p).1) m o
          i;
    volume_snapshot_class_name =
        range_keys-same (set_source_option m) (λ p. p.volume_snapshot_class_name)
          (λ k p. (source-rest m k p).2) m o i;
    storage_class_name =
        range_keys-set (set_source_option m) (λ p. p.storage_class_name) _ _ (source-class m) m o i;
    access_modes =
        range_keys-set (set_source_option m) (λ p. p.access_modes) _ _ (source-modes m) m o i;
  }

  destination-exact :
      range_keys (set_destination_option m) m o
      ≡ with_config destination_storage_class_name destination_access_mode m o
  unfolding with_config
  destination-exact = λ i. record {
    copy_method =
        range_keys-same (set_destination_option m) (λ p. p.copy_method)
          (λ k p. (destination-rest m k p).0) m o i;
    capacity =
        range_keys-same (set_destination_option m) (λ p. p.capacity)
          (λ k p. (destination-rest m k p).1) m o i;
    volume_snapshot_class_name =
        range_keys-same (set_destination_option m) (λ p. p.volume_snapshot_class_name)
          (λ k p. (destination-rest m k p).2) m o i;
    storage_class_name =
        range_keys-set (set_destination_option m) (λ p. p.storage_class_name) _ _
          (destination-class m) m o i;
    access_modes =
        range_keys-set (set_destination_option m) (λ p. p.access_modes) _ _ (destination-modes m) m
          o i;
  }

-- The volume options of both sides are the fixed defaults, but where the ConfigMap has an entry
-- for the storage class or for the access mode, in whatever order its keys are visited, the field
-- is that entry; other entries change nothing.
pub vol_options-exact :
    (vsb : VolumeSnapshotBackup) (pvc : PersistentVolumeClaim) (vsr : VolumeSnapshotRestore)
    (capacity : Quantity) (cm : Option ConfigMap)
    → configure_rep_source_vol_options vsb pvc cm
        ≡ with_config source_storage_class_name source_access_mode (config_data cm) (record {
          copy_method = CopyMethod.direct;
          capacity = none;
          volume_snapshot_class_name = some vsb.status.volume_snapshot_class_name;
          storage_class_name = some vsb.status.source_pvc_data.storage_class_name;
          access_modes = pvc.access_modes;
        })
      × configure_rep_dest_vol_options vsr capacity cm
        ≡ with_config destination_storage_class_name destination_access_mode
            (config_data cm)
            (record {
              copy_method = CopyMethod.snapshot;
              capacity = some capacity;
              volume_snapshot_class_name =
                  some vsr.spec.volume_snapshot_mover_backupref.volume_snapshot_class_name;
              storage_class_name =
                  some
                    vsr.spec.volume_snapshot_mover_backupref.backed_up_pvc_data.storage_class_name;
              access_modes = some ("ReadWriteOnce" ∷ []);
            })
unfolding configure_rep_source_vol_options configure_rep_dest_vol_options
vol_options-exact vsb pvc vsr capacity cm =
    (source-exact (config_data cm) _, destination-exact (config_data cm) _)
