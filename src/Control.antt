-- ===== src/Control.antt =====
-- control/: the scenario registry, the workflow that keeps it, and the workers' cache of it.
pub mod Schema
pub mod Workflow
pub mod Cache
