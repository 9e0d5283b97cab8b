-- ===== src/Backup/Settings/Taken.antt =====
-- Each turn of the loop of CreateVSBResticSecret (controllers/restic.go) over the user's secret sets
-- one setting, and the loop sets it to the last value under its key.
use volume_snapshot_mover.Prelude.{
  String, ◌≡◌, refl, ◌∙◌, [], ◌∷◌, StringMap, ◌==◌, if◌then◌else◌, arith,
}
use volume_snapshot_mover.Secret.Keys.{
  restic_repository, restic_prune_interval, snapshot_schedule_cron, snapshot_retain_policy_hourly,
  snapshot_retain_policy_daily, snapshot_retain_policy_weekly, snapshot_retain_policy_monthly,
  snapshot_retain_policy_yearly, snapshot_retain_policy_within,
}
use volume_snapshot_mover.Secret.Built.{last_at, other_key}
use volume_snapshot_mover.Backup.Restic.{Settings, take_setting, take_settings}

-- A loop whose turn sets a field from its key, and no other turn does, sets it to the last value
-- under its key.
module _ (of_settings : Settings → String) (key : String)
    (turn : (k val : String) (t : Settings)
      → of_settings (take_setting k val t) ≡ (if k == key then val else of_settings t)) where
  pub take_settings-last :
      (m : StringMap String) (t : Settings)
      → of_settings (take_settings m t) ≡ last_at key m (of_settings t)
  unfolding take_settings last_at
  take_settings-last [] t = refl
  take_settings-last ((k, val) ∷ m) t =
      take_settings-last m (take_setting k val t) ∙ (λ i. last_at key m (turn k val t i))

pub take_setting-prune :
    (k val : String) (t : Settings)
    → (take_setting k val t).prune_interval
      ≡ (if k == restic_prune_interval then val else t.prune_interval)
unfolding take_setting
take_setting-prune k val t =
    let a = other_key k restic_repository restic_prune_interval refl in ground arith

pub take_setting-cron :
    (k val : String) (t : Settings)
    → (take_setting k val t).schedule_cron_expr
      ≡ (if k == snapshot_schedule_cron then val else t.schedule_cron_expr)
unfolding take_setting
take_setting-cron k val t =
    let a = other_key k restic_repository snapshot_schedule_cron refl in
    let b = other_key k restic_prune_interval snapshot_schedule_cron refl in ground arith

pub take_setting-monthly :
    (k val : String) (t : Settings)
    → (take_setting k val t).policy.monthly
      ≡ (if k == snapshot_retain_policy_monthly then val else t.policy.monthly)
unfolding take_setting
take_setting-monthly k val t =
    let a = other_key k restic_repository snapshot_retain_policy_monthly refl in
    let b = other_key k restic_prune_interval snapshot_retain_policy_monthly refl in
    let d = other_key k snapshot_schedule_cron snapshot_retain_policy_monthly refl in ground arith

pub take_setting-daily :
    (k val : String) (t : Settings)
    → (take_setting k val t).policy.daily
      ≡ (if k == snapshot_retain_policy_daily then val else t.policy.daily)
unfolding take_setting
take_setting-daily k val t =
    let a = other_key k restic_repository snapshot_retain_policy_daily refl in
    let b = other_key k restic_prune_interval snapshot_retain_policy_daily refl in
    let d = other_key k snapshot_schedule_cron snapshot_retain_policy_daily refl in
    let e = other_key k snapshot_retain_policy_monthly snapshot_retain_policy_daily refl in
    ground arith

pub take_setting-hourly :
    (k val : String) (t : Settings)
    → (take_setting k val t).policy.hourly
      ≡ (if k == snapshot_retain_policy_hourly then val else t.policy.hourly)
unfolding take_setting
take_setting-hourly k val t =
    let a = other_key k restic_repository snapshot_retain_policy_hourly refl in
    let b = other_key k restic_prune_interval snapshot_retain_policy_hourly refl in
    let d = other_key k snapshot_schedule_cron snapshot_retain_policy_hourly refl in
    let e = other_key k snapshot_retain_policy_monthly snapshot_retain_policy_hourly refl in
    let f = other_key k snapshot_retain_policy_daily snapshot_retain_policy_hourly refl in
    ground arith

pub take_setting-weekly :
    (k val : String) (t : Settings)
    → (take_setting k val t).policy.weekly
      ≡ (if k == snapshot_retain_policy_weekly then val else t.policy.weekly)
unfolding take_setting
take_setting-weekly k val t =
    let a = other_key k restic_repository snapshot_retain_policy_weekly refl in
    let b = other_key k restic_prune_interval snapshot_retain_policy_weekly refl in
    let d = other_key k snapshot_schedule_cron snapshot_retain_policy_weekly refl in
    let e = other_key k snapshot_retain_policy_monthly snapshot_retain_policy_weekly refl in
    let f = other_key k snapshot_retain_policy_daily snapshot_retain_policy_weekly refl in
    let g = other_key k snapshot_retain_policy_hourly snapshot_retain_policy_weekly refl in
    ground arith

pub take_setting-yearly :
    (k val : String) (t : Settings)
    → (take_setting k val t).policy.yearly
      ≡ (if k == snapshot_retain_policy_yearly then val else t.policy.yearly)
unfolding take_setting
take_setting-yearly k val t =
    let a = other_key k restic_repository snapshot_retain_policy_yearly refl in
    let b = other_key k restic_prune_interval snapshot_retain_policy_yearly refl in
    let d = other_key k snapshot_schedule_cron snapshot_retain_policy_yearly refl in
    let e = other_key k snapshot_retain_policy_monthly snapshot_retain_policy_yearly refl in
    let f = other_key k snapshot_retain_policy_daily snapshot_retain_policy_yearly refl in
    let g = other_key k snapshot_retain_policy_hourly snapshot_retain_policy_yearly refl in
    let h = other_key k snapshot_retain_policy_weekly snapshot_retain_policy_yearly refl in
    ground arith

pub take_setting-within :
    (k val : String) (t : Settings)
    → (take_setting k val t).policy.within
      ≡ (if k == snapshot_retain_policy_within then val else t.policy.within)
unfolding take_setting
take_setting-within k val t =
    let a = other_key k restic_repository snapshot_retain_policy_within refl in
    let b = other_key k restic_prune_interval snapshot_retain_policy_within refl in
    let d = other_key k snapshot_schedule_cron snapshot_retain_policy_within refl in
    let e = other_key k snapshot_retain_policy_monthly snapshot_retain_policy_within refl in
    let f = other_key k snapshot_retain_policy_daily snapshot_retain_policy_within refl in
    let g = other_key k snapshot_retain_policy_hourly snapshot_retain_policy_within refl in
    let h = other_key k snapshot_retain_policy_weekly snapshot_retain_policy_within refl in
    let j = other_key k snapshot_retain_policy_yearly snapshot_retain_policy_within refl in
    ground arith
