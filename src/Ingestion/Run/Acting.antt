-- ===== src/Ingestion/Run/Acting.antt =====
-- The `actor` argument of `ingestion_run` of ingestion/run.py.
use aslan_core.Base.{some}
use aslan_core.Audit.Context.{Actor}
use aslan_core.Ingestion.Handle.{World}

-- The world with another actor in the ContextVar.
abbrev pub acting : Actor → World → World
acting a w = record w { ctx = record (w.ctx) { actor = some a } }

-- Of an outcome, with the ContextVar as it was in `w`.
abbrev pub restored : World → World → World
restored w v = record v { ctx = record (v.ctx) { actor = w.ctx.actor } }
