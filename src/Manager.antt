-- ===== src/Manager.antt =====
-- main.go: one process serves the requests of both controllers.
pub mod Requests
pub mod Slots
pub mod Fixed
