-- ===== src/Timeseries/Calls.antt =====
-- The calls of an `ObservationWriter` of timeseries/writer.py on one session, in any order: `write`
-- and `upsert_series`. A call that raises leaves its state to the next one, or is rolled back to a
-- savepoint before it.
pub mod Frozen
use aslan_core.Base.{ℕ, String, Bool, true, false, Option, List, [], ◌∷◌}
use aslan_core.Action.{Action, Outcome, done, raised, state, put_back}
use aslan_core.Json.{Fields}
use aslan_core.Audit.Context.{Context}
use aslan_core.Timeseries.Types.{ObservationIn, WriteCount, Env}
use aslan_core.Timeseries.Catalog.{SeriesFields, SubjectRef, Catalog}
use aslan_core.Timeseries.Gate.{Checks}
use aslan_core.Timeseries.Writer.{Session, write}
use aslan_core.Timeseries.Upsert.{upsert_series}

-- The arguments of a call, and what other transactions commit while an upsert runs.
pub data WriterCall : Type 0 where
  write_call : (sid occurred_at : ℕ) → List ObservationIn → WriterCall
  upsert_call :
      String → SeriesFields → Option Fields → List SubjectRef → (Catalog → Catalog) → WriterCall

-- The tables that `write` works on, and back.
abbrev pub observations_of : Catalog → Session
observations_of w = record { rows = w.rows; events = w.events; batch_keys = w.batch_keys }

abbrev pub with_observations : Catalog → Session → Catalog
with_observations w s = record w { rows = s.rows; events = s.events; batch_keys = s.batch_keys }

abbrev pub after : {A : Type 0} → Bool → Catalog → Outcome Catalog A → Catalog
after savepoint w (done a v) = v
after true w (raised e v) = w
after false w (raised e v) = v

-- A writer of an ingestion run, for an actor and a time.
module _ (env : Env) (checks : Checks) (ctx : Context) (run : ℕ) where
  unfoldable pub write_in : ℕ → ℕ → List ObservationIn → Action Catalog WriteCount
  write_in sid occurred_at observations w =
      put_back (with_observations w)
        (write env ctx run sid occurred_at observations (observations_of w))

  unfoldable pub call : Bool → WriterCall → Catalog → Catalog
  call savepoint (write_call sid occurred_at observations) w =
      after savepoint w (write_in sid occurred_at observations w)
  call savepoint (upsert_call code fields metadata subjects meanwhile) w =
      after savepoint w (upsert_series checks ctx run meanwhile code fields metadata subjects w)

  unfoldable pub calls : List (Bool × WriterCall) → Catalog → Catalog
  calls [] w = w
  calls ((savepoint, next) ∷ rest) w = calls rest (call savepoint next w)
