-- ===== src/Batch/Values.antt =====
-- getVSMContainer, GetBackupBatchValue and GetRestoreBatchValue of controllers/common.go
use volume_snapshot_mover.Prelude.{String, Option, none, some, List, [], ◌∷◌, ◌==◌, if◌then◌else◌}
use volume_snapshot_mover.Exec.{Error, Kind, Exec, pure, fail, ◌>>=◌, if_nil}
use volume_snapshot_mover.Client.{Client, get_object}
use volume_snapshot_mover.Api.Cluster.{Container, EnvVar}

abbrev pub vsm_deployment_name : String
vsm_deployment_name = "volume-snapshot-mover"

abbrev pub vsm_container_name : String
vsm_container_name = "data-mover-controller-container"

abbrev pub batch_backup_name : String
batch_backup_name = "DATAMOVER_CONCURRENT_BACKUP"

abbrev pub batch_restore_name : String
batch_restore_name = "DATAMOVER_CONCURRENT_RESTORE"

unfoldable pub find_container : String → List Container → Option Container
find_container name [] = none
find_container name (container ∷ cs) =
    if container.name == name then some container else find_container name cs

-- The loop over the container's variables: the value of the first with the name, else "".
unfoldable pub env_value : String → List EnvVar → String
env_value name [] = ""
env_value name (env ∷ es) = if env.name == name then env.value else env_value name es

module _ {W : Type 0} (c : Client W) where
  unfoldable pub get_vsm_container : String → Exec W Container
  unfolding find_container
  get_vsm_container namespace = do
    vsm_deployment ←
        get_object Kind.deployment c.deployments
          (record { namespace = namespace; name = vsm_deployment_name })
    if_nil (find_container vsm_container_name vsm_deployment.containers)
        (fail (Error.message "cannot obtain vsm container data-mover-controller-container"))
        (λ container. pure container)

  unfoldable pub get_backup_batch_value : String → Exec W String
  unfolding env_value
  get_backup_batch_value namespace = do
    vsm_container ← get_vsm_container namespace
    let backup_batch_value = env_value batch_backup_name vsm_container.env
    if backup_batch_value == ""
        then fail (Error.message "cannot obtain vsb batch value")
        else pure backup_batch_value

  unfoldable pub get_restore_batch_value : String → Exec W String
  unfolding env_value
  get_restore_batch_value namespace = do
    vsm_container ← get_vsm_container namespace
    let restore_batch_value = env_value batch_restore_name vsm_container.env
    if restore_batch_value == ""
        then fail (Error.message "cannot obtain vsb batch value")
        else pure restore_batch_value
