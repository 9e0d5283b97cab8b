-- ===== src/Secret/Build.antt =====
-- PopulateResticSecret and BuildResticSecret of controllers/common.go. The package variables
-- that BuildResticSecret fills are an argument and part of the answer.
use volume_snapshot_mover.Prelude.{
  String, Option, none, some, [], ◌∷◌, ◌++◌, StringMap, text_at, concat, ◌==◌, if◌then◌else◌,
}
use volume_snapshot_mover.Exec.{Error, Result, ok, err, ResticVars}
use volume_snapshot_mover.Api.Meta.{ObjectMeta}
use volume_snapshot_mover.Api.Cluster.{Secret}
use volume_snapshot_mover.Secret.Keys.{
  oadp_bsl_provider_name, aws_provider, azure_provider, gcp_provider, aws_access_key,
  aws_secret_key, aws_default_region, azure_account_name, azure_account_key,
  google_application_credentials, restic_custom_ca, restic_password, restic_repository,
  restic_prune_interval, snapshot_schedule_cron, snapshot_retain_policy_hourly,
  snapshot_retain_policy_daily, snapshot_retain_policy_weekly, snapshot_retain_policy_monthly,
  snapshot_retain_policy_yearly, snapshot_retain_policy_within,
}

-- RetainPolicy of controllers/restic.go
pub record RetainPolicy : Type 0 where
  pub daily : String
  pub weekly : String
  pub hourly : String
  pub monthly : String
  pub yearly : String
  pub within : String

abbrev pub no_policy : RetainPolicy
no_policy = record { daily = ""; weekly = ""; hourly = ""; monthly = ""; yearly = ""; within = "" }

-- The metadata of an object that a controller is about to create.
abbrev pub new_meta : (name namespace label value : String) → ObjectMeta
new_meta name namespace label value = record {
  name = name;
  namespace = namespace;
  labels = (label, value) ∷ [];
  annotations = [];
  finalizers = [];
  generation = 0;
  resource_version = "";
  creation_timestamp = none;
  deletion_timestamp = none;
}

unfoldable pub populate_restic_secret : (name namespace label : String) → Secret
populate_restic_secret name namespace label = record {
  meta = new_meta (concat name "-secret") namespace label name;
  data_of = none;
}

-- One turn of the `range givensecret.Data` loop of each provider.
unfoldable pub take_aws : String → String → ResticVars → ResticVars
take_aws key val v =
    if key == aws_access_key
    then record v { aws_access = val }
    else if key == aws_secret_key
    then record v { aws_secret = val }
    else if key == aws_default_region
    then record v { aws_default_region = val }
    else if key == restic_password
    then record v { restic_password = val }
    else if key == restic_custom_ca
    then record v { restic_custom_ca = val }
    else v

unfoldable pub take_azure : String → String → ResticVars → ResticVars
take_azure key val v =
    if key == azure_account_name
    then record v { azure_account_name = val }
    else if key == azure_account_key
    then record v { azure_account_key = val }
    else if key == restic_password
    then record v { restic_password = val }
    else if key == restic_custom_ca
    then record v { restic_custom_ca = val }
    else v

unfoldable pub take_gcp : String → String → ResticVars → ResticVars
take_gcp key val v =
    if key == google_application_credentials
    then record v { google_application_credentials = val }
    else if key == restic_password
    then record v { restic_password = val }
    else if key == restic_custom_ca
    then record v { restic_custom_ca = val }
    else v

unfoldable pub take_all :
    (String → String → ResticVars → ResticVars) → StringMap String → ResticVars → ResticVars
take_all take [] v = v
take_all take ((key, val) ∷ m) v = take_all take m (take key val v)

-- The keys that every provider's secret holds after its credentials.
unfoldable pub common_data :
    ResticVars → (resticrepo prune_interval : String) → RetainPolicy → String → StringMap String
common_data v resticrepo prune_interval rpolicy schedule_cron_expr =
    (restic_custom_ca, v.restic_custom_ca)
    ∷ (restic_password, v.restic_password)
    ∷ (restic_repository, resticrepo)
    ∷ (restic_prune_interval, prune_interval)
    ∷ (snapshot_schedule_cron, schedule_cron_expr)
    ∷ (snapshot_retain_policy_daily, rpolicy.daily)
    ∷ (snapshot_retain_policy_weekly, rpolicy.weekly)
    ∷ (snapshot_retain_policy_hourly, rpolicy.hourly)
    ∷ (snapshot_retain_policy_monthly, rpolicy.monthly)
    ∷ (snapshot_retain_policy_yearly, rpolicy.yearly)
    ∷ (snapshot_retain_policy_within, rpolicy.within)
    ∷ []

unfoldable pub aws_data : ResticVars → StringMap String
aws_data v =
    (aws_access_key, v.aws_access)
    ∷ (aws_secret_key, v.aws_secret)
    ∷ (aws_default_region, v.aws_default_region)
    ∷ []

unfoldable pub azure_data : ResticVars → StringMap String
azure_data v =
    (azure_account_name, v.azure_account_name) ∷ (azure_account_key, v.azure_account_key) ∷ []

unfoldable pub gcp_data : ResticVars → StringMap String
gcp_data v = (google_application_credentials, v.google_application_credentials) ∷ []

-- Ranging over a nil map is an empty loop.
abbrev pub entries : Option (StringMap String) → StringMap String
entries none = []
entries (some m) = m

-- With a provider that has no case the secret stays as it was.
unfoldable pub fill_secret :
    (provider : String)
    → StringMap String
    → Secret
    → (resticrepo prune_interval : String) → RetainPolicy
    → String
    → ResticVars
    → Secret × ResticVars
unfolding take_aws take_azure take_gcp take_all common_data aws_data azure_data gcp_data
fill_secret provider given secret resticrepo prune_interval rpolicy schedule_cron_expr v =
    if provider == aws_provider
    then (let w = take_all take_aws given v in
        (
          record secret {
            data_of =
                some (
                  aws_data w ++ common_data w resticrepo prune_interval rpolicy schedule_cron_expr);
          },
          w,
        ))
    else if provider == azure_provider
    then (let w = take_all take_azure given v in
        (
          record secret {
            data_of = some (
                azure_data w ++ common_data w resticrepo prune_interval rpolicy schedule_cron_expr);
          },
          w,
        ))
    else if provider == gcp_provider
    then (let w = take_all take_gcp given v in
        (
          record secret {
            data_of =
                some (
                  gcp_data w ++ common_data w resticrepo prune_interval rpolicy schedule_cron_expr);
          },
          w,
        ))
    else (secret, v)

-- The two secrets are pointers: `none` is nil.
unfoldable pub build_restic_secret :
    Option Secret
    → Option Secret
    → (resticrepo prune_interval : String) → RetainPolicy
    → String
    → ResticVars
    → Result Secret × ResticVars
unfolding fill_secret
build_restic_secret none secret resticrepo prune_interval rpolicy schedule_cron_expr v =
    (err (Error.message "nil givensecret in BuildResticSecret"), v)
build_restic_secret (some given) none resticrepo prune_interval rpolicy schedule_cron_expr v =
    (err (Error.message "nil secret in BuildResticSecret"), v)
build_restic_secret (some given) (some secret) resticrepo prune_interval rpolicy schedule_cron_expr
      v =
    let (built, w) =
      fill_secret (text_at given.meta.labels oadp_bsl_provider_name) (entries given.data_of) secret
        resticrepo prune_interval rpolicy schedule_cron_expr v in
    (ok built, w)
