-- ===== src/Model.antt =====
-- internal/model: the vocabulary that the ingest side and the panes share.
pub mod Event
pub mod Job
