-- ===== src/Watermark/Store.antt =====
-- The methods of `WatermarkStore`. The session is the table and the audit events that its open
-- transaction sees.
pub mod Cas
pub mod Replay
use aslan_core.Base.{
  ℕ, zero, suc, String, Bool, true, false, Option, none, some, List, [], ◌∷◌, ◌++◌, str_eq,
  if◌then◌else◌, is_some, ◌==◌,
}
use aslan_core.Base.Dict.{dict_of}
use aslan_core.Action.{Action, Outcome, put_back, done, raised, pure, ◌>>=◌, ◌>>◌}
use aslan_core.Json.{Json, Fields, end, field, str, bool}
use aslan_core.Audit.Context.{Context}
use aslan_core.Audit.Recorder.{
  AuditRecord, Event, record_event, assert_actor_or_strict_raise, audit_cols,
}
use aslan_core.Watermark.Table.{
  Key, Row, select_cursor, insert_do_nothing, update_where, upsert, select_job,
}

pub record Session : Type 0 where
  pub rows : List Row
  pub events : List Event

-- `audit_record(self._s, record=…)`
unfoldable pub audit : Context → AuditRecord → Action Session (Unit {0})
audit c r s = put_back (λ events. record s { events = events }) (record_event c r s.events)

-- {"source_id": …, "job_name": …, "key": …}
unfoldable pub target_pk : Key → Fields
target_pk k =
    field "source_id" (str k.source_id)
      (field "job_name" (str k.job_name) (field "key" (str k.key) end))

unfoldable pub snapshot : Key → String → Fields
snapshot k v =
    field "source_id" (str k.source_id) (
      field "job_name" (str k.job_name)
        (field "key" (str k.key) (field "cursor_value" (str v) end)))

abbrev pub watermark_record : String → Key → Option Fields → Option Fields → Fields → AuditRecord
watermark_record op k before after metadata = record {
  operation = op;
  target_schema = "src";
  target_table = "watermark";
  target_pk = target_pk k;
  before = before;
  after = after;
  metadata = metadata;
  ingestion_run_id = none;
}

abbrev pub new_row : Context → Key → String → Row
new_row c k v = record { at = k; cursor_value = v; updated_at = c.now; cols = audit_cols c }

unfoldable pub get : Key → Session → Option String
get k s = select_cursor k s.rows

-- The audit row of a successful `advance`; a miss writes none.
unfoldable pub audit_advance : Context → Key → String → Option String → Bool → Action Session Bool
audit_advance c k new expected false = pure false
audit_advance c k new none true = do
  audit c (
      watermark_record "watermark.advance" k none (some (snapshot k new))
        (field "path" (str "insert") end))
  pure true
audit_advance c k new (some e) true = do
  audit c (
      watermark_record "watermark.advance" k (some (snapshot k e)) (some (snapshot k new))
        (field "path" (str "cas") end))
  pure true

-- The statement of `advance`, and its `rowcount == 1`.
unfoldable pub swap : Context → Key → String → Option String → Action Session Bool
swap c k new none s =
    let (rows, rowcount) = insert_do_nothing (new_row c k new) s.rows in
    done (rowcount == 1) (record s { rows = rows })
swap c k new (some e) s =
    let (rows, rowcount) = update_where (new_row c k new) e s.rows in
    done (rowcount == 1) (record s { rows = rows })

unfoldable pub advance : Context → Key → String → Option String → Action Session Bool
advance c k new expected = do
  assert_actor_or_strict_raise c
  success ← swap c k new expected
  audit_advance c k new expected success

unfoldable pub set_upsert : Context → Key → String → Option String → Action Session (Unit {0})
set_upsert c k v existing = do
  (λ s. done tt (record s { rows = upsert (new_row c k v) s.rows }))
  audit c (
      watermark_record (elim existing [ none ↦ "watermark.set" | some _ ↦ "watermark.force_set" ]) k
        (elim existing [ none ↦ none | some old ↦ some (snapshot k old) ]) (some (snapshot k v))
        end)

unfoldable pub set_idempotent : Context → Key → String → Action Session (Unit {0})
set_idempotent c k v = audit c (
    watermark_record "watermark.idempotent_hit" k (some (snapshot k v)) (some (snapshot k v))
      (field "returned_existing" (bool true) end))

-- `existing is not None and existing.cursor_value == cursor_value`
abbrev pub already : Option String → String → Bool
already none v = false
already (some old) v = str_eq old v

unfoldable pub set : Context → Key → String → Action Session (Unit {0})
set c k v = do
  assert_actor_or_strict_raise c
  existing ← (λ s. done (select_cursor k s.rows) s)
  if already existing v then set_idempotent c k v else set_upsert c k v existing

-- `{r.key: r.cursor_value for r in rows}`
unfoldable pub list_for_job : String → String → Session → List (String × String)
list_for_job source job s = dict_of (select_job source job s.rows)
