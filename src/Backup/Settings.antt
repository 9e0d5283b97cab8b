-- ===== src/Backup/Settings.antt =====
-- The user's settings on their way through the secret: CreateVSBResticSecret of
-- controllers/restic.go collects them, BuildResticSecret of controllers/common.go stores them, and
-- buildReplicationSource of controllers/replicationsource.go reads them.
pub mod Taken
use volume_snapshot_mover.Prelude.{
  String, Bool, true, ◌||◌, ◌≡◌, refl, ◌∙◌, [], ◌∷◌, StringMap, text_at, ◌==◌, if◌then◌else◌, arith,
  Bool-cases, inl, inr,
}
use volume_snapshot_mover.Exec.{ResticVars}
use volume_snapshot_mover.Api.Cluster.{Secret}
use volume_snapshot_mover.Secret.Keys.{
  aws_provider, azure_provider, gcp_provider, restic_repository, restic_prune_interval,
  snapshot_schedule_cron, snapshot_retain_policy_hourly, snapshot_retain_policy_daily,
  snapshot_retain_policy_weekly, snapshot_retain_policy_monthly, snapshot_retain_policy_yearly,
  snapshot_retain_policy_within,
}
use volume_snapshot_mover.Secret.Build.{
  entries, fill_secret, aws_data, azure_data, gcp_data, common_data,
}
use volume_snapshot_mover.Secret.Built.{last_at, other_key, is_provider}
use volume_snapshot_mover.Backup.Restic.{Settings, take_setting, take_settings}
use volume_snapshot_mover.Backup.Source.Create.{policy_of}
use volume_snapshot_mover.Backup.Settings.Taken.{
  take_setting-prune, take_setting-cron, take_setting-monthly, take_setting-daily,
  take_setting-hourly, take_setting-weekly, take_setting-yearly, take_setting-within,
  take_settings-last,
}

-- The data of a secret, as CreateVSBResticSecret and buildReplicationSource read it, has this
-- repository and these settings.
pub record HasSettings (m : StringMap String) (repo : String) (t : Settings) : Type 0 where
  pub repository : text_at m restic_repository ≡ repo
  pub prune_interval : text_at m restic_prune_interval ≡ t.prune_interval
  pub schedule_cron_expr : text_at m snapshot_schedule_cron ≡ t.schedule_cron_expr
  pub policy : policy_of m ≡ t.policy

module _ (given : StringMap String) (secret : Secret) (repo : String) (t : Settings)
    (v : ResticVars) where
  fill_secret-HasSettings :
      (provider : String)
      → is_provider provider ≡ true
      → HasSettings
          (entries
            (fill_secret provider given secret repo t.prune_interval t.policy t.schedule_cron_expr
              v).0.data_of)
          repo
          t
  unfolding fill_secret is_provider common_data aws_data azure_data gcp_data policy_of text_at
  fill_secret-HasSettings provider known = elim (Bool-cases (provider == aws_provider)) [
    | inl e ↦ rw e (record {
      repository = refl;
      prune_interval = refl;
      schedule_cron_expr = refl;
      policy = refl;
    })
    | inr e ↦ elim (Bool-cases (provider == azure_provider)) [
      | inl f ↦
          rw (e, f)
            (record {
              repository = refl;
              prune_interval = refl;
              schedule_cron_expr = refl;
              policy = refl;
            })
      | inr f ↦
          let g : (provider == gcp_provider) ≡ true = ground arith in
          rw (e, f, g)
            (record {
              repository = refl;
              prune_interval = refl;
              schedule_cron_expr = refl;
              policy = refl;
            })
    ]
  ]

-- The last policy and settings in a user's secret.
pub last_settings : StringMap String → Settings → Settings
last_settings m t = record t {
  prune_interval = last_at restic_prune_interval m t.prune_interval;
  schedule_cron_expr = last_at snapshot_schedule_cron m t.schedule_cron_expr;
  policy = record {
    daily = last_at snapshot_retain_policy_daily m t.policy.daily;
    weekly = last_at snapshot_retain_policy_weekly m t.policy.weekly;
    hourly = last_at snapshot_retain_policy_hourly m t.policy.hourly;
    monthly = last_at snapshot_retain_policy_monthly m t.policy.monthly;
    yearly = last_at snapshot_retain_policy_yearly m t.policy.yearly;
    within = last_at snapshot_retain_policy_within m t.policy.within;
  };
}

take_settings-policy :
    (m : StringMap String) (t : Settings) → (take_settings m t).policy ≡ (last_settings m t).policy
unfolding last_settings
take_settings-policy m t = λ i. record {
  daily = take_settings-last (λ u. u.policy.daily) _ take_setting-daily m t i;
  weekly = take_settings-last (λ u. u.policy.weekly) _ take_setting-weekly m t i;
  hourly = take_settings-last (λ u. u.policy.hourly) _ take_setting-hourly m t i;
  monthly = take_settings-last (λ u. u.policy.monthly) _ take_setting-monthly m t i;
  yearly = take_settings-last (λ u. u.policy.yearly) _ take_setting-yearly m t i;
  within = take_settings-last (λ u. u.policy.within) _ take_setting-within m t i;
}

-- For each of the three providers, what is stored in the secret of the backup is read back from
-- it: the repository that the backup's status records, and, for the ReplicationSource, the user's
-- settings, each the last value under its key in the user's secret `m`, or the value of the start
-- where the key is missing.
pub take_settings-HasSettings :
    (provider : String) (given m : StringMap String) (secret : Secret) (repo : String)
    (t : Settings) (v : ResticVars)
    → is_provider provider ≡ true
    → (let u = take_settings m t in
        HasSettings
          (entries
            (fill_secret provider given secret repo u.prune_interval u.policy u.schedule_cron_expr
              v).0.data_of)
          repo
          (last_settings m t))
unfolding last_settings
take_settings-HasSettings provider given m secret repo t v known =
    let h = fill_secret-HasSettings given secret repo (take_settings m t) v provider known in
    record {
      repository = h.repository;
      prune_interval =
          h.prune_interval ∙ take_settings-last (λ u. u.prune_interval) _ take_setting-prune m t;
      schedule_cron_expr =
          h.schedule_cron_expr
          ∙ take_settings-last (λ u. u.schedule_cron_expr) _ take_setting-cron m t;
      policy = h.policy ∙ take_settings-policy m t;
    }
