-- ===== src/Secret/Keys.antt =====
-- The constants of controllers/common.go: labels and secret data keys.
use volume_snapshot_mover.Prelude.{String}

abbrev pub vsb_label : String
vsb_label = "datamover.oadp.openshift.io/vsb"

abbrev pub vsr_label : String
vsr_label = "datamover.oadp.openshift.io/vsr"

abbrev pub backup_label : String
backup_label = "velero.io/backup-name"

abbrev pub restore_label : String
restore_label = "velero.io/restore-name"

abbrev pub oadp_bsl_provider_name : String
oadp_bsl_provider_name = "openshift.io/oadp-bsl-provider"

abbrev pub aws_provider : String
aws_provider = "aws"

abbrev pub azure_provider : String
azure_provider = "azure"

abbrev pub gcp_provider : String
gcp_provider = "gcp"

abbrev pub aws_access_key : String
aws_access_key = "AWS_ACCESS_KEY_ID"

abbrev pub aws_secret_key : String
aws_secret_key = "AWS_SECRET_ACCESS_KEY"

abbrev pub aws_default_region : String
aws_default_region = "AWS_DEFAULT_REGION"

abbrev pub azure_account_name : String
azure_account_name = "AZURE_ACCOUNT_NAME"

abbrev pub azure_account_key : String
azure_account_key = "AZURE_ACCOUNT_KEY"

abbrev pub google_application_credentials : String
google_application_credentials = "GOOGLE_APPLICATION_CREDENTIALS"

abbrev pub restic_custom_ca : String
restic_custom_ca = "RESTIC_CUSTOM_CA"

abbrev pub restic_password : String
restic_password = "RESTIC_PASSWORD"

abbrev pub restic_repository : String
restic_repository = "RESTIC_REPOSITORY"

abbrev pub restic_prune_interval : String
restic_prune_interval = "restic-prune-interval"

abbrev pub snapshot_schedule_cron : String
snapshot_schedule_cron = "SnapshotScheduleCron"

abbrev pub snapshot_retain_policy_hourly : String
snapshot_retain_policy_hourly = "SnapshotRetainPolicyHourly"

abbrev pub snapshot_retain_policy_daily : String
snapshot_retain_policy_daily = "SnapshotRetainPolicyDaily"

abbrev pub snapshot_retain_policy_weekly : String
snapshot_retain_policy_weekly = "SnapshotRetainPolicyWeekly"

abbrev pub snapshot_retain_policy_monthly : String
snapshot_retain_policy_monthly = "SnapshotRetainPolicyMonthly"

abbrev pub snapshot_retain_policy_yearly : String
snapshot_retain_policy_yearly = "SnapshotRetainPolicyYearly"

abbrev pub snapshot_retain_policy_within : String
snapshot_retain_policy_within = "SnapshotRetainPolicyWithin"
