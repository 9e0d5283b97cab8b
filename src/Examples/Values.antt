-- ===== src/Examples/Values.antt =====
-- The theorems on values, applied.
use volume_snapshot_mover.Prelude.{
  ◌≡◌, refl, false, none, some, List, [], ◌∷◌, ◌++◌, text_at, leb, String, StringMap,
}
use volume_snapshot_mover.Api.Meta.{ObjectMeta}
use volume_snapshot_mover.Api.Cluster.{Secret, Pod, StorageClass, VolumeSnapshotClass}
use volume_snapshot_mover.Secret.Keys.{oadp_bsl_provider_name, restic_custom_ca, restic_password}
use volume_snapshot_mover.Secret.Validate.{provider_cases, validate_restic_secret}
use volume_snapshot_mover.Secret.Exact.{is_ok, has_values, validate_restic_secret-exact}
use volume_snapshot_mover.Secret.Build.{build_restic_secret, RetainPolicy}
use volume_snapshot_mover.Secret.Built.{last_at, is_provider, HasCa, build_restic_secret-HasCa}
use volume_snapshot_mover.Classes.{
  storage_class_default_key, volume_snapshot_class_default_key, check_for_one_default_snap_class,
  check_for_one_default_storage_class,
}
use volume_snapshot_mover.Classes.Default.{
  default_snap_classes, default_storage_classes, snap_class_answer, storage_class_answer,
  check_for_one_default-count,
}
use volume_snapshot_mover.Security.{has_claim, search_pods, context_of}
use volume_snapshot_mover.Security.Override.{search_pods-first}
use volume_snapshot_mover.Backup.Source.Retain.{configure_rep_source_snapshot_retain_policy}
use volume_snapshot_mover.Backup.Source.Retain.Exact.{
  are_counts, count_of, retain_answer, configure_rep_source_snapshot_retain_policy-exact,
}
use volume_snapshot_mover.Secret.Build.{entries, fill_secret, no_policy}
use volume_snapshot_mover.Backup.Restic.{Settings, take_settings}
use volume_snapshot_mover.Backup.Fetch.{}
use volume_snapshot_mover.Backup.Settings.{HasSettings, last_settings, take_settings-HasSettings}
use volume_snapshot_mover.Secret.Keys.{restic_prune_interval, snapshot_retain_policy_daily}
use volume_snapshot_mover.Api.Cluster.{PersistentVolumeClaim, ConfigMap, ClaimPhase}
use volume_snapshot_mover.Api.VolSync.{CopyMethod}
use volume_snapshot_mover.Config.{source_storage_class_name, source_access_mode, config_data}
use volume_snapshot_mover.Config.Exact.{with_config, vol_options-exact}
use volume_snapshot_mover.Backup.Source.Options.{configure_rep_source_vol_options}
use volume_snapshot_mover.Restore.Destination.{
  destination_storage_class_name, destination_access_mode, configure_rep_dest_vol_options,
}
use volume_snapshot_mover.Examples.Cluster.{no_data, one_restore, named, no_vars}

abbrev aws_secret_object : Secret
aws_secret_object = record {
  meta = record (named "restic") { labels = (oadp_bsl_provider_name, "aws") ∷ [] };
  data_of = some ((restic_password, "pw") ∷ []);
}

validate_restic_secret-exact_example :
    is_ok (validate_restic_secret (some aws_secret_object))
    ≡ has_values
        (provider_cases (text_at aws_secret_object.meta.labels oadp_bsl_provider_name))
        aws_secret_object.data_of
validate_restic_secret-exact_example = validate_restic_secret-exact aws_secret_object

abbrev policy : RetainPolicy
policy = record {
  daily = "7";
  weekly = "4";
  hourly = "";
  monthly = "0";
  yearly = "2";
  within = "3w";
}

abbrev target : Secret
target = record { meta = named "vsb-1-secret"; data_of = none }

build_restic_secret-HasCa_example :
    HasCa
      (last_at restic_custom_ca (entries aws_secret_object.data_of) no_vars.restic_custom_ca)
      (build_restic_secret (some aws_secret_object) (some target) "s3:repo" "7" policy "" no_vars)
unfolding is_provider text_at
build_restic_secret-HasCa_example =
    build_restic_secret-HasCa aws_secret_object target "s3:repo" "7" policy "" no_vars refl

configure_retain_policy-exact_example :
    configure_rep_source_snapshot_retain_policy policy
    ≡ retain_answer (are_counts ("7" ∷ "" ∷ "4" ∷ "0" ∷ "2" ∷ [])) (record {
      hourly = count_of "";
      daily = count_of "7";
      weekly = count_of "4";
      monthly = count_of "0";
      yearly = count_of "2";
      within = some "3w";
    })
configure_retain_policy-exact_example = configure_rep_source_snapshot_retain_policy-exact policy

abbrev class_marked : String → String → ObjectMeta
class_marked key value = record (named "class") { annotations = (key, value) ∷ [] }

abbrev two_snap_classes : List VolumeSnapshotClass
two_snap_classes =
    record { meta = class_marked volume_snapshot_class_default_key "true" }
    ∷ record { meta = class_marked volume_snapshot_class_default_key "1" }
    ∷ []

abbrev one_storage_class : List StorageClass
one_storage_class = record { meta = class_marked storage_class_default_key "true" } ∷ []

check_for_one_default-count_example :
    check_for_one_default_snap_class (some two_snap_classes)
      ≡ snap_class_answer (leb (default_snap_classes two_snap_classes) 1)
    × check_for_one_default_storage_class (some one_storage_class)
      ≡ storage_class_answer (leb (default_storage_classes one_storage_class) 1)
check_for_one_default-count_example = check_for_one_default-count two_snap_classes one_storage_class

abbrev pod_with : String → Pod
pod_with claim = record {
  meta = named "pod";
  containers = [];
  volumes = record { name = "v"; claim = some claim; read_only = false } ∷ [];
  restart_policy = "";
  security_context = none;
}

search_pods-first_example :
    search_pods {W = Unit} "data"
      ((pod_with "other" ∷ []) ++ pod_with "data" ∷ pod_with "data" ∷ [])
    ≡ context_of (pod_with "data")
unfolding has_claim
search_pods-first_example =
    search_pods-first "data" (pod_with "other" ∷ []) (pod_with "data") (pod_with "data" ∷ [])
      (refl, tt) refl

abbrev user_data : StringMap String
user_data = (restic_prune_interval, "14") ∷ (snapshot_retain_policy_daily, "7") ∷ []

abbrev no_settings : Settings
no_settings = record { repo = ""; prune_interval = ""; schedule_cron_expr = ""; policy = no_policy }

take_settings-HasSettings_example :
    HasSettings
      (entries
        (fill_secret "gcp" user_data aws_secret_object "s3:repo"
          (take_settings user_data no_settings).prune_interval
          (take_settings user_data no_settings).policy
          (take_settings user_data no_settings).schedule_cron_expr
          no_vars).0.data_of)
      "s3:repo"
      (last_settings user_data no_settings)
unfolding is_provider text_at
take_settings-HasSettings_example =
    take_settings-HasSettings "gcp" user_data user_data aws_secret_object "s3:repo" no_settings
      no_vars refl

abbrev claim : PersistentVolumeClaim
claim = record {
  meta = named "pvc";
  data_source = none;
  storage_class_name = some "gp2";
  access_modes = some ("ReadWriteOnce" ∷ []);
  storage_request = "1Gi";
  phase = ClaimPhase.bound;
}

abbrev gp2_config : ConfigMap
gp2_config = record {
  meta = named "gp2-config";
  data_of = some ((source_storage_class_name, "fast") ∷ (destination_access_mode, "RWX") ∷ []);
}

vol_options-exact_example :
    configure_rep_source_vol_options no_data claim (some gp2_config)
      ≡ with_config source_storage_class_name source_access_mode
          (config_data (some gp2_config))
          (record {
            copy_method = CopyMethod.direct;
            capacity = none;
            volume_snapshot_class_name = some "";
            storage_class_name = some "";
            access_modes = some ("ReadWriteOnce" ∷ []);
          })
    × configure_rep_dest_vol_options one_restore "1Gi" (some gp2_config)
      ≡ with_config destination_storage_class_name destination_access_mode
          (config_data (some gp2_config))
          (record {
            copy_method = CopyMethod.snapshot;
            capacity = some "1Gi";
            volume_snapshot_class_name = some "csi";
            storage_class_name = some "gp2";
            access_modes = some ("ReadWriteOnce" ∷ []);
          })
vol_options-exact_example = vol_options-exact no_data claim one_restore "1Gi" (some gp2_config)
