-- ===== src/Common.antt =====
-- common/: the fixed topology, the configuration, the data models and the search attributes.
pub mod Constants
pub mod SearchAttributes
pub mod Models
pub mod Retry
pub mod Config
