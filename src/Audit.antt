-- ===== src/Audit.antt =====
-- audit/: who is recorded as having done what. `Context` is audit/context.py, `Recorder` is
-- audit/recorder.py, `Attribution` has the proofs.
pub mod Context
pub mod Recorder
pub mod Attribution
