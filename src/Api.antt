-- ===== src/Api.antt =====
-- The objects that the controllers read and write: the two custom resources of
-- api/v1alpha1, and the fields that the controllers use of the objects of other packages.
pub mod Meta
pub mod Backup
pub mod Restore
pub mod Cluster
pub mod VolSync
