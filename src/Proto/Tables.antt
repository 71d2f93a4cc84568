-- ===== src/Proto/Tables.antt =====
-- The tables of pyo3-derive-backend/src/defs.rs.
pub mod Basic
pub mod Containers
pub mod Number
