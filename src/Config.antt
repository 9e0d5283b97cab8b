-- ===== src/Config.antt =====
-- GetDataMoverConfigMap, GetVeleroServiceAccount of controllers/common.go, and the keys of the
-- data mover's ConfigMap.
pub mod Exact
use volume_snapshot_mover.Prelude.{String, Option, none, some, [], ◌∷◌, StringMap, concat}
use volume_snapshot_mover.Exec.{
  Error, Result, ok, err, panic, Kind, Exec, pure, fail, crash, attempt, ◌>>=◌,
}
use volume_snapshot_mover.Client.{Client, get_object}
use volume_snapshot_mover.Api.Cluster.{ConfigMap, ServiceAccount}

abbrev pub source_storage_class_name : String
source_storage_class_name = "SourceStorageClassName"

abbrev pub source_access_mode : String
source_access_mode = "SourceAccessMode"

abbrev pub source_cache_storage_class_name : String
source_cache_storage_class_name = "SourceCacheStorageClassName"

abbrev pub source_cache_access_mode : String
source_cache_access_mode = "SourceCacheAccessMode"

abbrev pub source_cache_capacity : String
source_cache_capacity = "SourceCacheCapacity"

abbrev pub source_mover_security_context : String
source_mover_security_context = "SourceMoverSecurityContext"

-- `if cm != nil && cm.Data != nil`: the map to range over, empty otherwise.
abbrev pub config_data : Option ConfigMap → StringMap String
config_data none = []
config_data (some cm) = elim cm.data_of [ none ↦ [] | some m ↦ m ]

-- `for spec := range cm.Data`
unfoldable pub range_keys : {A : Type 0} → (String → A → A) → StringMap String → A → A
range_keys step [] a = a
range_keys step ((key, val) ∷ m) a = range_keys step m (step key a)

unfoldable pub config_answer : {W : Type 0} → Result ConfigMap → Exec W (Option ConfigMap)
config_answer (ok cm) = pure (some cm)
config_answer (err Error.not_found) = pure none
config_answer (err (Error.message t)) = fail (Error.message "failed to get data mover configMap")
config_answer panic = crash

module _ {W : Type 0} (c : Client W) where
  -- A missing ConfigMap is nil; another error is replaced by one text.
  unfoldable pub get_data_mover_config_map : (namespace sc : String) → Exec W (Option ConfigMap)
  get_data_mover_config_map namespace sc = do
    answer ← attempt (
        get_object Kind.config_map c.config_maps
          (record { namespace = namespace; name = concat sc "-config" }))
    config_answer answer

  unfoldable pub get_velero_service_account : String → Exec W ServiceAccount
  get_velero_service_account namespace =
      get_object Kind.service_account c.service_accounts
        (record { namespace = namespace; name = "velero" })
