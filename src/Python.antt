-- ===== src/Python.antt =====
-- The Python data that the program keeps: dictionaries and the JSON values in them.
pub mod Dict
pub mod Reference
pub mod Value
