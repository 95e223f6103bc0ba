-- ===== src/Workers.antt =====
-- workers/: the processes that serve the task queues.
pub mod Backend
pub mod Containers
pub mod Supervisor
pub mod Entry
pub mod Registry
