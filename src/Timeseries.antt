-- ===== src/Timeseries.antt =====
-- timeseries/ and schemas/timeseries.py: the bitemporal observations.
pub mod Types
pub mod Bytes
pub mod Payload
pub mod Metadata
pub mod Pii
pub mod Scrub
pub mod Subject
pub mod Table
pub mod BatchHash
pub mod Batch
pub mod Writer
pub mod Catalog
pub mod Gate
pub mod Request
pub mod Upsert
pub mod Calls
pub mod Series
pub mod Reader
