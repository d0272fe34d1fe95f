-- ===== src/Tests.antt =====
-- The theorems at concrete inputs, and runs of the code.
mod Audits
mod Watermarks
pub mod Sample
mod Writes
mod Reads
mod Hashes
mod Runs
mod Scans
mod Streams
mod Deadletters
mod Publishes
mod Upserts
mod Scrubs
