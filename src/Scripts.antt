-- ===== src/Scripts.antt =====
-- scripts/: the registration of the search attributes, and the demonstration of queries.
pub mod Register
pub mod Visibility
