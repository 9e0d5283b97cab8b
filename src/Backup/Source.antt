-- ===== src/Backup/Source.antt =====
-- controllers/replicationsource.go: the ReplicationSource that the backup creates.
pub mod Options
pub mod Retain
pub mod Create
