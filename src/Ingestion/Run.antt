-- ===== src/Ingestion/Run.antt =====
-- `ingestion_run` of ingestion/run.py, from the check of the actor to `_close_run`, and the connection
-- that it opens. A statement is taken not to fail; other connections are not modelled.
pub mod Closing
pub mod Counters
pub mod Lifecycle
pub mod Acting
use Prim.Native.String
use aslan_core.Base.{
  ℕ, zero, suc, ◌+◌, ◌-◌, String, Bool, true, false, not, Option, none, some, List, [], ◌∷◌, ◌++◌,
  str_eq, is_some, ◌==◌, if◌then◌else◌, ltb, map,
}
use aslan_core.Action.{Action, Outcome, done, raised, pure, raise, put_back, ◌>>=◌, ◌>>◌}
use aslan_core.Result.{Error, unknown_source}
use aslan_core.Json.{ℤ, pos, negsuc, Json, Fields, end, field, str, int, num, obj, bool, opt_str}
use aslan_core.Audit.Context.{Actor, Context, current_actor, push_actor, pop_actor, set_actor}
use aslan_core.Audit.Recorder.{AuditRecord, Event, record_event, assert_actor_or_strict_raise}
use aslan_core.Ingestion.Handle.{
  RunRow, Db, World, Handle, Scope, run_record, audit_record_on_conn, commit, in_world, Step,
  run_body,
}

-- The last `n` characters, and `_truncate_tb` of a formatted traceback.
str_length : String → ℕ
str_length String.[] = 0
str_length (String.◌∷◌ c s) = suc (str_length s)

str_drop : ℕ → String → String
str_drop zero s = s
str_drop (suc n) String.[] = String.[]
str_drop (suc n) (String.◌∷◌ c s) = str_drop n s

unfoldable pub truncate_tb : String → String
unfolding str_length str_drop
truncate_tb tb = if ltb 4000 (str_length tb) then str_drop (str_length tb - 4000) tb else tb

-- The UPDATE of `_close_run`, on the row with the key.
unfoldable pub closed_row : ℕ → Handle → String → Option String → RunRow → RunRow
closed_row now h status error r = record r {
  status = status;
  finished_at = some now;
  rows_written = h.rows;
  docs_written = h.docs;
  bytes_written = h.bytes;
  error_count = h.errors;
  error = error;
  metadata = elim (h.metadata) [ none ↦ r.metadata | some md ↦ md ];
}

unfoldable pub update_run : ℕ → (RunRow → RunRow) → List RunRow → List RunRow
update_run id f [] = []
update_run id f (r ∷ runs) = (if r.id == id then f r else r) ∷ update_run id f runs

abbrev metadata_field : Fields → Fields
metadata_field d = field "metadata" (obj d) end

abbrev metadata_before : Option Fields → Option Fields
metadata_before none = none
metadata_before (some d) = some (metadata_field d)

abbrev pub metadata_record : ℕ → Option Fields × Fields → AuditRecord
metadata_record id (before, after) =
    run_record id "ingestion_run.set_metadata" (metadata_before before)
      (some (metadata_field after)) end

abbrev pub complete_record : Handle → String → Option String → AuditRecord
complete_record h status error =
    run_record h.id "ingestion_run.complete" none
      (some (
        field "ingestion_run_id" (num h.id) (
          field "status" (str status) (
            field "rows_written" (int h.rows) (
              field "docs_written" (int h.docs)
                (field "bytes_written" (int h.bytes) (field "error_count" (int h.errors) end)))))))
      (field "error_truncated" (bool (is_some error)) end)

unfoldable pub flush_metadata : ℕ → List (Option Fields × Fields) → Action World (Unit {0})
flush_metadata id [] = pure tt
flush_metadata id (p ∷ pending) = do
  audit_record_on_conn (metadata_record id p)
  flush_metadata id pending

unfoldable pub close_run : Handle → String → Option String → Action World (Unit {0})
close_run h status error = do
  (λ w. done tt (record w {
    live = record (w.live) {
      runs = update_run h.id (closed_row w.ctx.now h status error) w.live.runs;
    };
  }))
  flush_metadata h.id h.pending
  audit_record_on_conn (complete_record h status error)
  commit

-- `_audit_cols_for_run`
unfoldable pub audit_cols_for_run : Context → Option String × Option String
audit_cols_for_run c = elim (current_actor c) [
  | none ↦ (none, none)
  | some a ↦ (some a.actor_id, some a.actor_kind)
]

-- The arguments of `ingestion_run`.
pub record Request : Type 0 where
  pub source_id : String
  pub job_name : String
  pub config_hash : Option String
  pub metadata : Option Fields
  pub actor : Option Actor

abbrev metadata_or_empty : Option Fields → Fields
metadata_or_empty none = end
metadata_or_empty (some d) = d

unfoldable pub knows_source : String → List String → Bool
knows_source sid [] = false
knows_source sid (s ∷ sources) = if str_eq s sid then true else knows_source sid sources

-- The row that the INSERT makes.
unfoldable pub running_row : Request → World → RunRow
running_row q w = record {
  id = w.next_run_id;
  source_id = q.source_id;
  job_name = q.job_name;
  status = "running";
  config_hash = q.config_hash;
  metadata = metadata_or_empty q.metadata;
  actor_id = (audit_cols_for_run w.ctx).0;
  actor_kind = (audit_cols_for_run w.ctx).1;
  started_at = w.ctx.now;
  finished_at = none;
  rows_written = pos 0;
  docs_written = pos 0;
  bytes_written = pos 0;
  error_count = pos 0;
  error = none;
}

abbrev pub start_record : Request → ℕ → AuditRecord
start_record q id =
    run_record id "ingestion_run.start" none
      (some (
        field "ingestion_run_id" (num id) (
          field "source_id" (str q.source_id) (
            field "job_name" (str q.job_name) (
              field "config_hash" (opt_str q.config_hash) (
                field "metadata" (obj (metadata_or_empty q.metadata))
                  (field "status" (str "running") end)))))))
      end

abbrev pub new_handle : Request → ℕ → ℕ → Handle
new_handle q id now = record {
  id = id;
  source_id = q.source_id;
  job_name = q.job_name;
  started_at = now;
  rows = pos 0;
  docs = pos 0;
  bytes = pos 0;
  errors = pos 0;
  metadata = none;
  pending = [];
  connected = true;
}

-- From the check of the source to the handle.
unfoldable pub open_run : Request → Action World Handle
open_run q = do
  (λ w.
      if knows_source q.source_id w.live.sources
      then done tt w
      else raised (unknown_source q.source_id) w)
  id ← (λ w. done w.next_run_id (record w {
    live = record (w.live) { runs = w.live.runs ++ running_row q w ∷ [] };
    next_run_id = suc w.next_run_id;
  }))
  audit_record_on_conn (start_record q id)
  commit
  (λ w. done (new_handle q id w.ctx.now) w)

-- `format_exception` of the module `traceback` is a parameter.
module _ (format_exception : Error → String) where
  -- `except BaseException as e: …; raise` and `else: …`
  unfoldable pub finish : Outcome Scope (Unit {0}) → Outcome World (Unit {0})
  finish (done _ s) = close_run s.handle "succeeded" none s.world
  finish (raised e s) =
      (close_run s.handle "failed" (some (truncate_tb (format_exception e))) >> raise e) s.world

  -- The body, and the closing of its run.
  unfoldable pub in_scope : List Step → Handle → Action World (Unit {0})
  in_scope body h w = finish (run_body body (in_world h w))

  -- The connection is opened, and closed with what was not committed rolled back.
  unfoldable pub with_connection : {A : Type 0} → Action World A → Action World A
  with_connection m w =
      let back : World → World = λ v. record v { live = v.saved } in
      put_back back (m (record w { live = w.saved }))

  unfoldable pub run_scope : Request → List Step → Action World (Unit {0})
  run_scope q body = do
    (λ w. assert_actor_or_strict_raise w.ctx w)
    with_connection (do h ← open_run q; in_scope body h)

  unfoldable pub ingestion_run : Request → List Step → Action World (Unit {0})
  ingestion_run q body w = elim (q.actor) [
    | none ↦ run_scope q body w
    | some a ↦
        let (token, pushed) = push_actor a w.ctx in
        put_back (λ (v : World). record v { ctx = pop_actor token v.ctx })
          (run_scope q body (record w { ctx = pushed }))
  ]
