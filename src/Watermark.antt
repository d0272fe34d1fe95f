-- ===== src/Watermark.antt =====
-- ingestion/watermarks.py: `WatermarkStore`. `Table` is `src.watermark` with the statements that the
-- store sends, `Store` the methods; `Table.Laws` and the modules below `Store` have the proofs.
pub mod Table
pub mod Store
