-- ===== src/Ingestion.antt =====
-- ingestion/run.py: the scope of one ingestion run.
pub mod Handle
pub mod Run
