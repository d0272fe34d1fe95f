-- ===== src/Tests/Runs.antt =====
-- Ingestion runs at concrete inputs.
use aslan_core.Base.{String, true, not, none, some, List, [], ◌∷◌, ◌≡◌, refl}
use aslan_core.Action.{Outcome, done, raised, state}
use aslan_core.Result.{Error, value_error, audit_missing_actor}
use aslan_core.Json.{pos, negsuc, end}
use aslan_core.Audit.Context.{current_actor, set_actor}
use aslan_core.Audit.Recorder.{record_event}
use aslan_core.Audit.Attribution.{refused}
use aslan_core.Ingestion.Handle.{
  Db, World, Scope, Step, rows_step, errors_step, metadata_step, actor_step, clock_step, raise_step,
  run_body, step, increment_rows, emit_handle_audit, audit_record_on_conn,
}
use aslan_core.Ingestion.Run.{Request, run_scope, knows_source}
use aslan_core.Ingestion.Run.Lifecycle.{started, started_db, run_left_running}
use aslan_core.Ingestion.Run.Acting.{acting}
use aslan_core.Tests.Sample.{alice, strict, nobody}

abbrev format : Error → String
format e = "Traceback"

abbrev db : Db
db = record { sources = "kap" ∷ []; runs = []; events = [] }

abbrev world : World
world = record { ctx = strict; live = db; saved = db; next_run_id = 4 }

abbrev request : Request
request = record {
  source_id = "kap";
  job_name = "daily";
  config_hash = none;
  metadata = none;
  actor = some alice;
}

abbrev failing : List Step
failing = rows_step (pos 2) ∷ metadata_step end ∷ clock_step 160 ∷ raise_step value_error ∷ []

known : knows_source request.source_id world.saved.sources ≡ true
unfolding knows_source
known = refl

abbrev failed : Outcome Scope (Unit {0})
failed = run_body failing (started request world)

abbrev clearing : List Step
clearing = rows_step (pos 2) ∷ actor_step none ∷ []

abbrev cleared : Outcome Scope (Unit {0})
cleared = run_body clearing (started request world)

cleared-refused : refused (state cleared).world.ctx ≡ true
unfolding run_body step increment_rows emit_handle_audit audit_record_on_conn set_actor record_event
    current_actor
cleared-refused = refl

run_left_running_example :
    (w' : World) × (run_scope format request clearing world ≡ raised audit_missing_actor w')
    × (w'.saved ≡ started_db request world)
    × (w'.live ≡ w'.saved)
run_left_running_example =
    run_left_running format request clearing world cleared refl known refl cleared-refused

abbrev elsewhere : Request
elsewhere = record request { source_id = "bist" }

unknown : not (knows_source elsewhere.source_id world.saved.sources) ≡ true
unfolding knows_source
unknown = refl

-- A run that alice's request makes where the ContextVar has nobody, and whose body takes the actor away
-- and gives it back.
abbrev idle : World
idle = record world { ctx = nobody }

abbrev handing : List Step
handing = rows_step (pos 2) ∷ actor_step none ∷ actor_step (some alice) ∷ []

abbrev handed : Outcome Scope (Unit {0})
handed = run_body handing (started request (acting alice idle))

abbrev counting : List Step
counting = rows_step (pos 2) ∷ errors_step (pos 1) ∷ rows_step (negsuc 0) ∷ []

abbrev start : Scope
start = started request world

abbrev stop : Scope
stop = state (run_body counting start)

counted : run_body counting start ≡ done tt stop
unfolding run_body step increment_rows emit_handle_audit audit_record_on_conn record_event
    current_actor
counted = refl
