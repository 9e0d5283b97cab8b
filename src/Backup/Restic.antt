-- ===== src/Backup/Restic.antt =====
-- CreateVSBResticSecret of controllers/restic.go
use volume_snapshot_mover.Prelude.{
  String, Bool, true, some, [], ◌∷◌, StringMap, text_at, concat, trim_slashes, ◌==◌, if◌then◌else◌,
}
use volume_snapshot_mover.Secret.Keys.{
  vsb_label, backup_label, restic_repository, restic_prune_interval, snapshot_schedule_cron,
  snapshot_retain_policy_hourly, snapshot_retain_policy_daily, snapshot_retain_policy_weekly,
  snapshot_retain_policy_monthly, snapshot_retain_policy_yearly, snapshot_retain_policy_within,
}
use volume_snapshot_mover.Secret.Validate.{validate_restic_secret}
use volume_snapshot_mover.Secret.Build.{
  RetainPolicy, no_policy, entries, populate_restic_secret, build_restic_secret,
}
use volume_snapshot_mover.Api.Backup.{VolumeSnapshotBackup}
use volume_snapshot_mover.Api.Cluster.{Secret, PersistentVolumeClaim}
use volume_snapshot_mover.Exec.{
  Error, Kind, Exec, pure, fail, from_result, ◌>>=◌, ◌>>◌, get_state, set_restic,
}
use volume_snapshot_mover.Client.{
  Client, Reconciler, get_object, create_or_update, update_vsb_status,
}
use volume_snapshot_mover.Backup.Fetch.{with_open_vsb, in_protected, claim_name, secret_name}

-- What the loop over the user's secret collects; `repo` is the package variable ResticRepoValue.
pub record Settings : Type 0 where
  pub repo : String
  pub prune_interval : String
  pub schedule_cron_expr : String
  pub policy : RetainPolicy

-- One turn of the loop: the tests are separate, and the keys differ.
unfoldable pub take_setting : String → String → Settings → Settings
take_setting key val t =
    if key == restic_repository
    then record t { repo = trim_slashes val }
    else if key == restic_prune_interval
    then record t { prune_interval = val }
    else if key == snapshot_schedule_cron
    then record t { schedule_cron_expr = val }
    else if key == snapshot_retain_policy_monthly
    then record t { policy = record (t.policy) { monthly = val } }
    else if key == snapshot_retain_policy_daily
    then record t { policy = record (t.policy) { daily = val } }
    else if key == snapshot_retain_policy_hourly
    then record t { policy = record (t.policy) { hourly = val } }
    else if key == snapshot_retain_policy_weekly
    then record t { policy = record (t.policy) { weekly = val } }
    else if key == snapshot_retain_policy_yearly
    then record t { policy = record (t.policy) { yearly = val } }
    else if key == snapshot_retain_policy_within
    then record t { policy = record (t.policy) { within = val } }
    else t

unfoldable pub take_settings : StringMap String → Settings → Settings
unfolding take_setting
take_settings [] t = t
take_settings ((key, val) ∷ m) t = take_settings m (take_setting key val t)

-- BuildResticSecret as the callback of CreateOrUpdate: it reads and fills the package variables.
unfoldable pub build_in_place :
    {W : Type 0}
    → Secret
    → (resticrepo prune_interval : String) → RetainPolicy
    → String
    → Secret
    → Exec W Secret
build_in_place given resticrepo prune_interval rpolicy schedule_cron_expr secret = do
  s ← get_state
  let (built, vars) =
      build_restic_secret (some given) (some secret) resticrepo prune_interval rpolicy
        schedule_cron_expr s.restic
  set_restic vars
  from_result built

-- `fmt.Sprintf("%s/%s/%s/%s", …)`
unfoldable pub repository_path : String → PersistentVolumeClaim → VolumeSnapshotBackup → String
repository_path repo pvc vsb = concat repo (
    concat "/" (
      concat pvc.meta.namespace
        (concat "/" (concat (text_at vsb.meta.labels backup_label) (concat "/" pvc.meta.name)))))

module _ {W : Type 0} (c : Client W) (r : Reconciler) where
  unfoldable pub make_restic_secret :
      VolumeSnapshotBackup → PersistentVolumeClaim → Secret → Exec W Bool
  unfolding take_settings build_in_place repository_path
  make_restic_secret vsb pvc restic_secret = do
    from_result (validate_restic_secret (some restic_secret))
    s ← get_state
    let settings = take_settings (entries restic_secret.data_of) (record {
      repo = s.restic.restic_repo;
      prune_interval = "";
      schedule_cron_expr = "";
      policy = no_policy;
    })
    set_restic (record (s.restic) { restic_repo = settings.repo })
    rsecret ←
        create_or_update Kind.secret c.secrets (in_protected vsb (secret_name vsb))
          (populate_restic_secret vsb.meta.name vsb.spec.protected_namespace vsb_label)
          (build_in_place restic_secret (repository_path settings.repo pvc vsb)
            settings.prune_interval settings.policy settings.schedule_cron_expr)
    update_vsb_status c (record vsb {
      status = record (vsb.status) {
        restic_repository = text_at (entries rsecret.data_of) restic_repository;
      };
    })
    pure true

  unfoldable pub create_vsb_restic_secret : Exec W Bool
  unfolding make_restic_secret
  create_vsb_restic_secret = with_open_vsb c r λ vsb. do
    pvc ← get_object Kind.persistent_volume_claim c.claims (in_protected vsb (claim_name vsb))
    if vsb.spec.restic_secret_ref == ""
        then fail (Error.message "restic secret name cannot be empty for vsb")
        else (do
          restic_secret ← get_object Kind.secret c.secrets (record {
            namespace = r.namespaced_name.namespace;
            name = vsb.spec.restic_secret_ref;
          })
          make_restic_secret vsb pvc restic_secret)
