-- ===== src/Workflows.antt =====
-- workflows/: the workflow classes.
pub mod Menu
pub mod Order
pub mod Settlement
pub mod Dispatch
pub mod Batch
pub mod Courier
