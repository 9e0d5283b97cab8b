-- ===== src/Lib.antt =====
-- The volume snapshot mover: two Kubernetes controllers that move the data of CSI volume
-- snapshots to and from object storage. The VolumeSnapshotBackup controller (VSB) clones a
-- snapshot, binds the clone to a claim and hands the claim to VolSync; the VolumeSnapshotRestore
-- controller (VSR) takes the data back.
--
-- Parts, and the files that model them:
--   Go                 strconv (ParseInt, Atoi, ParseBool) and the conversion to int32
--   Api                api/v1alpha1 (both objects, their phases and batching texts) and the
--                      fields used of Kubernetes, CSI, Velero and VolSync objects
--   Exec               how a Go function runs: a state that survives errors, three ways to end,
--                      a record of the calls to the API server; rules for invariants and answers
--   Client             what the controllers call outside the repository, as parameters
--   Secret             ValidateResticSecret, PopulateResticSecret and BuildResticSecret
--                      (controllers/common.go)
--   Classes            the default-class checks (controllers/common.go)
--   Security           GetPodSecurityContext and its helpers (controllers/common.go)
--   Batch              ReconcileBatch, the batch numbers and both queues (controllers/common.go);
--                      Slots is the abstract machine that each queue implements: a limit that is
--                      loaded once and places that are taken and given back
--   Events             the event filters (controllers/predicate.go) and the group, version and kinds
--                      of api/v1alpha1/groupversion_info.go
--   Config             the ConfigMap and the service account (controllers/common.go)
--   Ctrl               what a Reconcile returns, and how a pass through the steps ends
--   Backup             the VSB controller: Validate (controllers/validator.go), Snapshots
--                      (controllers/volumesnapshot.go), Claims (controllers/pvc.go), Restic
--                      (controllers/restic.go), Source (controllers/replicationsource.go), Status
--                      (controllers/common.go and replicationsource.go), Cleanup
--                      (controllers/cleanup.go), Reconcile
--                      (controllers/volumesnapshotbackup_controller.go); Server is what the
--                      controller gets done on an API server that answers, and how it gives
--                      places back
--   Restore            the VSR controller: Validate (controllers/validator.go), Restic
--                      (controllers/restic.go), Destination and Status
--                      (controllers/replicationdestination.go), Snapshots
--                      (controllers/volumesnapshot.go), Cleanup (controllers/cleanup.go), Reconcile
--                      (controllers/volumesnapshotrestore_controller.go)
--   Manager            the requests of both controllers, interleaved in one process (main.go)
--   Examples           a small cluster, and every theorem applied to concrete values
--
-- How code and model correspond. A definition has the name of its Go function in snake case. A
-- method of a reconciler is a run (Exec): `ok a` is a result without an error, `err e` is the zero
-- value with an error, and `panic` is a nil dereference. A request to the API server is added to
-- the record of calls, and the world behind it, an arbitrary type with arbitrary answers, may
-- change with each. The package variables (the counters of objects in processing, the batch
-- numbers, the values of restic secrets) are fields of the state. One reconciler runs at a time,
-- as with controller-runtime's default of one worker for each controller; requests of the two
-- controllers interleave as wholes.
--
-- Resource versions. An object carries its resource version, and any request may be answered with
-- an error: an API server that refuses the Update of an object with an old version, as Kubernetes
-- does with a conflict, is an instance of Client (Examples.Cluster.locking). Where a theorem
-- assumes that requests are answered, the Update of the object itself is not among them.
--
-- Integers. The counters are integers without a bound; parsed numbers have the bounds of Go's int
-- and int32 written out. There is no fuel: every loop of the source runs over a list.
--
-- Simplifications. Log lines and events of the recorder leave no trace. An error keeps the
-- constant part of its text. A byte slice is a text. A map is a list of its entries in one order
-- of iteration. A quantity is its canonical text, and resource.Quantity's functions are
-- parameters. CreateOrUpdate is its read, its callback and its write, with no difference made
-- between a changed and an unchanged object.
--
-- Not modelled: the start-up of the manager (main.go: flags, schemes and health checks), the
-- registration with controller-runtime, generated deep copies (values are immutable here),
-- deployment files and tests.
pub mod Prelude
pub mod Go
pub mod Api
pub mod Exec
pub mod Client
pub mod Secret
pub mod Classes
pub mod Security
pub mod Batch
pub mod Config
pub mod Ctrl
pub mod Backup
pub mod Restore
pub mod Events
pub mod Manager
pub mod Examples
