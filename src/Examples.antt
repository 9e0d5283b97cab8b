-- ===== src/Examples.antt =====
-- A small cluster with one backup object, and the theorems applied to it.
pub mod Cluster
pub mod Runs
pub mod Values
pub mod Events
pub mod Server
