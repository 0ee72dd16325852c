-- ===== src/Filter.antt =====
-- internal/filter: the query language; here its glob engine.
pub mod Glob
pub mod Query
