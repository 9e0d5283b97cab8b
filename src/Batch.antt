-- ===== src/Batch.antt =====
-- The batch numbers and the queue of controllers/common.go, and ReconcileBatch.
pub mod Values
pub mod Queue
pub mod Keeps
pub mod Slots
pub mod Run
pub mod Order
