-- ===== src/Secret.antt =====
-- The restic secrets of controllers/common.go and controllers/restic.go: the keys, the check of
-- the user's secret and the building of the controller's own.
pub mod Keys
pub mod Validate
pub mod Build
pub mod Exact
pub mod Built
