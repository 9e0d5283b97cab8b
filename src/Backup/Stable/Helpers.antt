-- ===== src/Backup/Stable/Helpers.antt =====
-- The steps of the backup controller keep what plain requests keep.
use volume_snapshot_mover.Prelude.{String, Bool, Option, none, some, List, [], ◌∷◌}
use volume_snapshot_mover.Exec.{State, Exec, Result, ok, err, panic, Error}
use volume_snapshot_mover.Exec.Keeps.{Keeps}
use volume_snapshot_mover.Exec.Stable.{Stable, stable_rules}
use volume_snapshot_mover.Client.{Client, Reconciler}
use volume_snapshot_mover.Secret.Build.{RetainPolicy}
use volume_snapshot_mover.Config.{
  config_answer, get_data_mover_config_map, get_velero_service_account,
}
use volume_snapshot_mover.Security.{context_of, search_pods, get_pod_security_context}
use volume_snapshot_mover.Api.Backup.{VolumeSnapshotBackup, VolumeSnapshotBackupPhase}
use volume_snapshot_mover.Api.Cluster.{Secret, ConfigMap, Pod}
use volume_snapshot_mover.Api.VolSync.{ReplicationSource, ReplicationSpec}
use volume_snapshot_mover.Backup.Fetch.{
  get_vsb, with_vsb, with_open_vsb, sync_time, update_vsb_status_phase,
}
use volume_snapshot_mover.Backup.Restic.{build_in_place}
use volume_snapshot_mover.Backup.Source.Create.{pass_custom_ca}

module _ {W : Type 0} {P : State W → Type 0} (st : Stable P) (c : Client W) (r : Reconciler) where
  pub get_vsb-Keeps : Keeps P (get_vsb c r)
  unfolding get_vsb
  get_vsb-Keeps = search stable_rules

  pub with_vsb-Keeps :
      (f : VolumeSnapshotBackup → Exec W Bool)
      → ((v : VolumeSnapshotBackup) → Keeps P (f v))
      → Keeps P (with_vsb c r f)
  unfolding with_vsb
  with_vsb-Keeps f kf = search stable_rules

  pub with_open_vsb-Keeps :
      (f : VolumeSnapshotBackup → Exec W Bool)
      → ((v : VolumeSnapshotBackup) → Keeps P (f v))
      → Keeps P (with_open_vsb c r f)
  unfolding with_open_vsb
  with_open_vsb-Keeps f kf = search stable_rules

  sync_time-Keeps : (o : Option ReplicationSource) → Keeps P (sync_time c r o)
  unfolding sync_time
  sync_time-Keeps none = search stable_rules
  sync_time-Keeps (some source) = search stable_rules

  pub update_vsb_status_phase-Keeps :
      (o : Option ReplicationSource) (p : VolumeSnapshotBackupPhase)
      → Keeps P (update_vsb_status_phase c r o p)
  unfolding update_vsb_status_phase
  update_vsb_status_phase-Keeps o p = search (stable_rules, sync_time-Keeps)

module _ {W : Type 0} {P : State W → Type 0} (st : Stable P) where
  pub config_answer-Keeps : (a : Result ConfigMap) → Keeps P (config_answer a)
  unfolding config_answer
  config_answer-Keeps (ok cm) = search stable_rules
  config_answer-Keeps (err Error.not_found) = search stable_rules
  config_answer-Keeps (err (Error.message m)) = search stable_rules
  config_answer-Keeps panic = search stable_rules

  context_of-Keeps : (pod : Pod) → Keeps P (context_of pod)
  unfolding context_of
  context_of-Keeps pod = search stable_rules

  search_pods-Keeps : (name : String) (pods : List Pod) → Keeps P (search_pods name pods)
  unfolding search_pods
  search_pods-Keeps name [] = search stable_rules
  search_pods-Keeps name (pod ∷ pods) =
      search (stable_rules, context_of-Keeps, search_pods-Keeps name pods)

  pub build_in_place-Keeps :
      (given : Secret) (repo prune : String) (p : RetainPolicy) (cron : String) (s : Secret)
      → Keeps P (build_in_place given repo prune p cron s)
  unfolding build_in_place
  build_in_place-Keeps given repo prune p cron s = search stable_rules

  pub pass_custom_ca-Keeps : (s : Secret) (spec : ReplicationSpec) → Keeps P (pass_custom_ca s spec)
  unfolding pass_custom_ca
  pass_custom_ca-Keeps s spec = search stable_rules

module _ {W : Type 0} {P : State W → Type 0} (st : Stable P) (c : Client W) where
  pub get_data_mover_config_map-Keeps :
      (ns sc : String) → Keeps P (get_data_mover_config_map c ns sc)
  unfolding get_data_mover_config_map
  get_data_mover_config_map-Keeps ns sc = search (stable_rules, config_answer-Keeps)

  pub get_velero_service_account-Keeps : (ns : String) → Keeps P (get_velero_service_account c ns)
  unfolding get_velero_service_account
  get_velero_service_account-Keeps ns = search stable_rules

  pub get_pod_security_context-Keeps :
      (ns name : String) → Keeps P (get_pod_security_context c ns name)
  unfolding get_pod_security_context
  get_pod_security_context-Keeps ns name = search (stable_rules, search_pods-Keeps)

pub ruleset helper_rules = (
  stable_rules, with_vsb-Keeps, with_open_vsb-Keeps, get_vsb-Keeps, update_vsb_status_phase-Keeps,
  get_data_mover_config_map-Keeps, get_velero_service_account-Keeps, get_pod_security_context-Keeps,
  build_in_place-Keeps, pass_custom_ca-Keeps,
)
