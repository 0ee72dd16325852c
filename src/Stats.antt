-- ===== src/Stats.antt =====
-- internal/stats: the aggregates that are fed at ingest.
pub mod Floats
pub mod Callout
pub mod Jobs
pub mod Rings
pub mod TopN
