-- ===== src/Events.antt =====
-- Which events of watched objects reach the controllers.
pub mod Filter
pub mod Exact
pub mod Routes
