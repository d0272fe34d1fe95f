-- ===== src/Streams/Deadletter.antt =====
-- streams/deadletter.py: the tables, the search for the entry of a failure in a dead-letter stream, the
-- acquisition of an intent, and the routing.
pub mod Orphan
pub mod Search
pub mod Absent
pub mod Intent
pub mod Tables
pub mod Adopted
pub mod Acquired
pub mod Rescued
pub mod Route
