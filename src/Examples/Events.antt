-- ===== src/Examples/Events.antt =====
-- The theorems on events, applied to a scheme that knows an object by its metadata and its kinds.
use volume_snapshot_mover.Prelude.{true, ◌≡◌, ◌↔◌, Option, some, List, [], ◌∷◌}
use volume_snapshot_mover.Secret.Keys.{vsb_label, vsr_label}
use volume_snapshot_mover.Api.Meta.{ObjectMeta}
use volume_snapshot_mover.Events.Filter.{
  GroupVersionKind, Scheme, Event, vsb_kind, vsr_kind, volume_snapshot_backup_predicate,
  volume_snapshot_restore_predicate,
}
use volume_snapshot_mover.Events.Exact.{Passes, predicates-exact}
use volume_snapshot_mover.Backup.Source.Create.{no_source}
use volume_snapshot_mover.Restore.Destination.{no_destination}
use volume_snapshot_mover.Examples.Cluster.{no_data}

abbrev Object : Type 0
Object = ObjectMeta × Option (List GroupVersionKind)

abbrev object_scheme : Scheme Object
object_scheme = record { meta = λ o. o.0; object_kinds = λ o. o.1; unset_func = true }

abbrev source_kind : GroupVersionKind
source_kind = record { group = "volsync.backube"; version = "v1alpha1"; kind = "ReplicationSource" }

abbrev destination_kind : GroupVersionKind
destination_kind = record source_kind { kind = "ReplicationDestination" }

-- What the API server adds to the metadata of a created object.
abbrev stored : ObjectMeta → ObjectMeta
stored m = record m { generation = 1; resource_version = "7"; creation_timestamp = some 3 }

abbrev source_object : Object
source_object = (stored (no_source no_data).meta, some (source_kind ∷ []))

abbrev destination_object : Object
destination_object =
    (stored (no_destination "rd" "velero" "vsr-1").meta, some (destination_kind ∷ []))

predicates-exact_example :
    (volume_snapshot_backup_predicate object_scheme (Event.create source_object) ≡ true
      ↔ Passes object_scheme vsb_kind vsb_label (Event.create source_object))
    × (volume_snapshot_restore_predicate object_scheme (Event.create source_object) ≡ true
        ↔ Passes object_scheme vsr_kind vsr_label (Event.create source_object))
predicates-exact_example = predicates-exact object_scheme (Event.create source_object)
