-- ===== src/Streams.antt =====
-- streams/: the transactional outbox, its drainer, and the Redis ids that both it and the dead-letter
-- code compute with.
pub mod Ids
pub mod Services
pub mod Reconcile
pub mod Outbox
pub mod Row
pub mod Drainer
pub mod Producer
pub mod Deadletter
