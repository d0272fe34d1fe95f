-- ===== src/Ingestion/Handle.antt =====
-- `IngestionRunHandle` of ingestion/run.py, and what the body of an `ingestion_run` block may do. The
-- world is the database as the open transaction sees it and as it was committed last, with the
-- ContextVar. The body is a list of steps: the calls on the handle, a change of the actor, a change of
-- what now() returns, a raise.
use aslan_core.Base.{
  ℕ, suc, ◌+◌, ◌-◌, String, Bool, Option, some, List, [], ◌∷◌, ◌++◌, if◌then◌else◌, ltb,
}
use aslan_core.Action.{Action, done, raised, pure, put_back, ◌>>◌}
use aslan_core.Result.{Error}
use aslan_core.Json.{ℤ, pos, negsuc, Fields, end, field, int, num}
use aslan_core.Audit.Context.{Actor, Context, set_actor}
use aslan_core.Audit.Recorder.{AuditRecord, Event, record_event}

-- The sum of two `int`s.
abbrev sub_nat : ℕ → ℕ → ℤ
sub_nat m n = if ltb m n then negsuc (n - m - 1) else pos (m - n)

infixl 55 ◌+ℤ◌
abbrev pub ◌+ℤ◌ : ℤ → ℤ → ℤ
pos m +ℤ pos n = pos (m + n)
pos m +ℤ negsuc n = sub_nat m (suc n)
negsuc m +ℤ pos n = sub_nat n (suc m)
negsuc m +ℤ negsuc n = negsuc (suc (m + n))

-- A row of `src.ingestion_run`.
pub record RunRow : Type 0 where
  pub id : ℕ
  pub source_id : String
  pub job_name : String
  pub status : String
  pub config_hash : Option String
  pub metadata : Fields
  pub actor_id : Option String
  pub actor_kind : Option String
  pub started_at : ℕ
  pub finished_at : Option ℕ
  pub rows_written : ℤ
  pub docs_written : ℤ
  pub bytes_written : ℤ
  pub error_count : ℤ
  pub error : Option String

pub record Db : Type 0 where
  pub sources : List String
  pub runs : List RunRow
  pub events : List Event

-- `saved` is what other connections see; `next_run_id` is the sequence of the key.
pub record World : Type 0 where
  pub ctx : Context
  pub live : Db
  pub saved : Db
  pub next_run_id : ℕ

-- `IngestionRunHandle`; `connected` is `_conn is not None`.
pub record Handle : Type 0 where
  pub id : ℕ
  pub source_id : String
  pub job_name : String
  pub started_at : ℕ
  pub rows : ℤ
  pub docs : ℤ
  pub bytes : ℤ
  pub errors : ℤ
  pub metadata : Option Fields
  pub pending : List (Option Fields × Fields)
  pub connected : Bool

pub record Scope : Type 0 where
  pub world : World
  pub handle : Handle

abbrev pub run_pk : ℕ → Fields
run_pk id = field "ingestion_run_id" (num id) end

abbrev pub run_record : ℕ → String → Option Fields → Option Fields → Fields → AuditRecord
run_record id op before after metadata = record {
  operation = op;
  target_schema = "src";
  target_table = "ingestion_run";
  target_pk = run_pk id;
  before = before;
  after = after;
  metadata = metadata;
  ingestion_run_id = some id;
}

abbrev pub with_events : World → List Event → World
with_events w events = record w { live = record (w.live) { events = events } }

-- `_audit_record_on_conn`
unfoldable pub audit_record_on_conn : AuditRecord → Action World (Unit {0})
audit_record_on_conn r w = put_back (with_events w) (record_event w.ctx r w.live.events)

abbrev pub commit : Action World (Unit {0})
commit w = done tt (record w { saved = w.live })

abbrev pub in_world : Handle → World → Scope
in_world h w = record { world = w; handle = h }

-- `_emit_handle_audit`
unfoldable pub emit_handle_audit :
    String → Option Fields → Option Fields → Fields → Action Scope (Unit {0})
emit_handle_audit op before after metadata s =
    let emitted =
      put_back (in_world s.handle)
        (audit_record_on_conn (run_record s.handle.id op before after metadata) s.world) in
    if s.handle.connected then emitted else done tt s

abbrev pub rows_field : ℤ → Fields
rows_field n = field "rows" (int n) end

unfoldable pub increment_rows : ℤ → Action Scope (Unit {0})
increment_rows n s =
    let counted : Scope = record s { handle = record (s.handle) { rows = s.handle.rows +ℤ n } } in
    emit_handle_audit "ingestion_run.increment_rows" (some (rows_field s.handle.rows))
      (some (rows_field counted.handle.rows)) (field "delta" (int n) end) counted

unfoldable pub set_metadata : Fields → Handle → Handle
set_metadata d h = record h { metadata = some d; pending = h.pending ++ (h.metadata, d) ∷ [] }

-- What the body may do.
pub data Step : Type 0 where
  rows_step : ℤ → Step
  docs_step : ℤ → Step
  bytes_step : ℤ → Step
  errors_step : ℤ → Step
  metadata_step : Fields → Step
  actor_step : Option Actor → Step
  clock_step : ℕ → Step
  raise_step : Error → Step

unfoldable pub step : Step → Action Scope (Unit {0})
step (rows_step n) s = increment_rows n s
step (docs_step n) s =
    done tt (record s { handle = record (s.handle) { docs = s.handle.docs +ℤ n } })
step (bytes_step n) s =
    done tt (record s { handle = record (s.handle) { bytes = s.handle.bytes +ℤ n } })
step (errors_step n) s =
    done tt (record s { handle = record (s.handle) { errors = s.handle.errors +ℤ n } })
step (metadata_step d) s = done tt (record s { handle = set_metadata d s.handle })
step (actor_step a) s =
    done tt (record s { world = record (s.world) { ctx = set_actor a s.world.ctx } })
step (clock_step now) s =
    done tt (record s { world = record (s.world) { ctx = record (s.world.ctx) { now = now } } })
step (raise_step e) s = raised e s

unfoldable pub run_body : List Step → Action Scope (Unit {0})
run_body [] = pure tt
run_body (a ∷ body) = do step a; run_body body
