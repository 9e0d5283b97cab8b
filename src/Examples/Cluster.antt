-- ===== src/Examples/Cluster.antt =====
-- An API server that stores one backup object and knows the controller's deployment.
use volume_snapshot_mover.Prelude.{
  String, true, false, none, some, [], ◌∷◌, ◌==◌, concat, if◌then◌else◌,
}
use volume_snapshot_mover.Prelude.Int.{pos}
use volume_snapshot_mover.Api.Meta.{NamespacedName, ObjectMeta}
use volume_snapshot_mover.Api.Backup.{
  VolumeSnapshotBackup, VolumeSnapshotBackupPhase, VolumeSnapshotBackupBatchingStatus,
}
use volume_snapshot_mover.Api.Restore.{
  VolumeSnapshotRestore, VolumeSnapshotRestorePhase, VolumeSnapshotRestoreBatchingStatus,
}
use volume_snapshot_mover.Api.Cluster.{Deployment}
use volume_snapshot_mover.Exec.{Error, ok, err, State, ResticVars}
use volume_snapshot_mover.Client.{Client, Resource, Reconciler}
use volume_snapshot_mover.Batch.Values.{
  vsm_deployment_name, vsm_container_name, batch_backup_name, batch_restore_name,
}
use volume_snapshot_mover.Ctrl.{dm_finalizer}

abbrev pub named : String → ObjectMeta
named name = record {
  name = name;
  namespace = "app";
  labels = [];
  annotations = [];
  finalizers = dm_finalizer ∷ [];
  generation = 1;
  resource_version = "1";
  creation_timestamp = some 1;
  deletion_timestamp = none;
}

abbrev pub no_data : VolumeSnapshotBackup
no_data = record {
  meta = named "vsb-1";
  spec = record {
    volume_snapshot_content = record {
      api_version = "";
      kind = "";
      namespace = "";
      name = "vsc-1";
    };
    protected_namespace = "velero";
    restic_secret_ref = "restic";
  };
  status = record {
    is_completed = false;
    conditions = [];
    source_pvc_data = record { name = ""; size = ""; storage_class_name = "" };
    restic_repository = "";
    phase = VolumeSnapshotBackupPhase.unset;
    batching_status = VolumeSnapshotBackupBatchingStatus.unset;
    volume_snapshot_class_name = "";
    start_timestamp = none;
    completion_timestamp = none;
    replication_source_data = record {
      name = "";
      start_timestamp = none;
      completion_timestamp = none;
    };
  };
}

abbrev pub mover_deployment : Deployment
mover_deployment = record {
  meta = named vsm_deployment_name;
  containers =
      record {
        name = vsm_container_name;
        image = "mover";
        command = [];
        volume_mounts = [];
        env = record { name = batch_backup_name; value = "2" } ∷ [];
        security_context = none;
      }
      ∷ [];
}

abbrev pub restore_deployment : Deployment
restore_deployment = record {
  meta = named vsm_deployment_name;
  containers =
      record {
        name = vsm_container_name;
        image = "mover";
        command = [];
        volume_mounts = [];
        env = record { name = batch_restore_name; value = "1" } ∷ [];
        security_context = none;
      }
      ∷ [];
}

-- No object of the kind is there, and none can be stored.
abbrev pub nothing : {A : Type 0} → Resource VolumeSnapshotBackup A
nothing = record {
  read = λ key w. (err Error.not_found, w);
  read_all = λ ns w. (ok [], w);
  prepare = λ a w. (ok a, w);
  store = λ a w. (err (Error.message "read only"), w);
}

abbrev pub cluster : Client VolumeSnapshotBackup
cluster = record {
  vsbs = record {
    read = λ key w. (ok w, w);
    read_all = λ ns w. (ok (w ∷ []), w);
    prepare = λ a w. (ok w, w);
    store = λ a w. (ok a, a);
  };
  vsrs = nothing;
  secrets = nothing;
  config_maps = nothing;
  service_accounts = nothing;
  storage_classes = nothing;
  volume_snapshot_classes = nothing;
  volume_snapshot_contents = nothing;
  volume_snapshots = nothing;
  claims = nothing;
  pods = nothing;
  deployments = record {
    read = λ key w. (ok mover_deployment, w);
    read_all = λ ns w. (ok (mover_deployment ∷ []), w);
    prepare = λ a w. (ok a, w);
    store = λ a w. (ok a, w);
  };
  velero_backups = nothing;
  velero_restores = nothing;
  replication_sources = nothing;
  replication_destinations = nothing;
  vsb_update = λ v w. (ok v, v);
  vsb_status_update = λ v w. (ok v, v);
  vsr_update = λ v w. (ok v, w);
  vsr_status_update = λ v w. (ok v, w);
  delete_matching = λ k label value ns w. (ok tt, w);
  clock = λ w. (ok 7, w);
  getenv = λ name. "";
  set_status_condition = λ cs c. c ∷ cs;
  contains_finalizer = λ m f. true;
  add_finalizer = λ m f. m;
  remove_finalizer = λ m f. m;
  condition_synchronizing = "Synchronizing";
  synchronizing_reason_sync = "SyncInProgress";
  synchronizing_reason_error = "Error";
  parse_quantity = λ t. some t;
  as_int64 = λ q. pos 0;
  new_quantity = λ n. "0";
}

abbrev pub no_vars : ResticVars
no_vars = record {
  aws_access = "";
  aws_secret = "";
  aws_default_region = "";
  azure_account_name = "";
  azure_account_key = "";
  google_application_credentials = "";
  restic_custom_ca = "earlier";
  restic_password = "";
  restic_repo = "";
}

abbrev pub key : NamespacedName
key = record { namespace = "app"; name = "vsb-1" }

abbrev pub worker : Reconciler
worker = record { req = key; namespaced_name = key }

-- The same server with the check of an Update: each write of a status gives the stored object a new
-- resource version, and an object with an old one is refused.
abbrev pub locking : Client VolumeSnapshotBackup
locking = record cluster {
  vsb_status_update = λ v w.
      let stored = record v {
        meta = record (v.meta) { resource_version = concat w.meta.resource_version "1" };
      } in
      (ok stored, stored);
  vsb_update = λ v w.
      if v.meta.resource_version == w.meta.resource_version
      then (ok v, v)
      else (err (Error.message "Conflict"), w);
}

-- The controller's process at its start: no batch number is known.
abbrev pub start : State VolumeSnapshotBackup
start = record {
  world = no_data;
  calls = [];
  processing_vsbs = pos 0;
  vsb_batch_number = pos 0;
  processing_vsrs = pos 0;
  vsr_batch_number = pos 0;
  restic = no_vars;
}

-- The same with a batch number, one place being taken.
abbrev pub busy : State VolumeSnapshotBackup
busy = record start { processing_vsbs = pos 1; vsb_batch_number = pos 2 }

abbrev pub one_restore : VolumeSnapshotRestore
one_restore = record {
  meta = named "vsr-1";
  spec = record {
    restic_secret_ref = "restic";
    volume_snapshot_mover_backupref = record {
      backed_up_pvc_data = record { name = "data"; size = "1Gi"; storage_class_name = "gp2" };
      restic_repository = "s3:repo";
      volume_snapshot_class_name = "csi";
    };
    protected_namespace = "velero";
  };
  status = record {
    conditions = [];
    phase = VolumeSnapshotRestorePhase.unset;
    batching_status = VolumeSnapshotRestoreBatchingStatus.unset;
    snapshot_handle = "";
    volume_snapshot_content_name = "";
    start_timestamp = none;
    completion_timestamp = none;
    replication_destination_data = record {
      name = "";
      start_timestamp = none;
      completion_timestamp = none;
    };
  };
}

-- The same server with a restore object that is always read as it was at first, and with a
-- number of concurrent restores.
abbrev pub restore_cluster : Client VolumeSnapshotBackup
restore_cluster = record cluster {
  vsrs = record {
    read = λ key w. (ok one_restore, w);
    read_all = λ ns w. (ok (one_restore ∷ []), w);
    prepare = λ a w. (ok a, w);
    store = λ a w. (ok a, w);
  };
  deployments = record {
    read = λ key w. (ok restore_deployment, w);
    read_all = λ ns w. (ok (restore_deployment ∷ []), w);
    prepare = λ a w. (ok a, w);
    store = λ a w. (ok a, w);
  };
}
