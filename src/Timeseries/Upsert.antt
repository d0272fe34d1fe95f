-- ===== src/Timeseries/Upsert.antt =====
-- `ObservationWriter.upsert_series` of timeseries/writer.py, with `_reconcile_existing`,
-- `_upsert_series_field_change`, `_upsert_series_fresh` and `_persist_subjects`. `meanwhile` is what
-- other transactions have committed between the SELECT and the INSERT of a fresh series. The metric is
-- left out, and the messages of the exceptions.
pub mod Kept
pub mod Keys
pub mod Frozen
pub mod Agrees
pub mod Effect
pub mod Again
pub mod Deletable
use aslan_core.Base.{
  ℕ, suc, ◌+◌, String, Bool, true, false, ◌&&◌, not, Option, none, some, List, [], ◌∷◌, ◌++◌,
  str_eq, ◌==◌, ltb, if◌then◌else◌,
}
use aslan_core.Action.{Action, Outcome, done, raised, pure, raise, lift, ◌>>=◌, ◌>>◌, put_back}
use aslan_core.Result.{sqlalchemy_error, other_error, series_code_conflict}
use aslan_core.Json.{Fields, field, end, str, num, bool, obj, opt_str}
use aslan_core.Audit.Context.{Actor, Context, current_actor}
use aslan_core.Audit.Recorder.{
  AuditRecord, Event, AuditCols, audit_cols, assert_actor_or_strict_raise, record_event,
}
use aslan_core.Timeseries.Gate.{Checks, check_request}
use aslan_core.Timeseries.Request.{
  SeriesUpsertResult, opt_str_eq, opt_uuid_eq, short_payload, full_payload, when, immutable_changes,
  Request,
}
use aslan_core.Timeseries.Catalog.{
  SeriesFields, CatalogRow, SubjectRef, SubjectRow, Catalog, find_series, update_series,
  count_observations, insert_subject,
}

module _ (request : Request) where
  open request use {checks, ctx, run, meanwhile, code, new, subjects}

  abbrev with_events : Catalog → List Event → Catalog
  with_events w events = record w { events = events }

  unfoldable pub audit : AuditRecord → Action Catalog (Unit {0})
  audit r w = put_back (with_events w) (record_event ctx r w.events)

  abbrev pub series_record : ℕ → String → Option Fields → Option Fields → Fields → AuditRecord
  series_record sid operation before after metadata = record {
    operation = operation;
    target_schema = "ts";
    target_table = "series_catalog";
    target_pk = field "series_id" (num sid) end;
    before = before;
    after = after;
    metadata = metadata;
    ingestion_run_id = some run;
  }

  abbrev subject_row : ℕ → SubjectRef → SubjectRow
  subject_row sid s =
      let cols = audit_cols ctx in
      record {
        series_id = sid;
        subject = s;
        actor_id = cols.actor_id;
        actor_kind = cols.actor_kind;
        request_id = cols.request_id;
      }

  -- `_persist_subjects`: a role that the CHECK refuses raises.
  unfoldable pub persist_subjects : ℕ → List SubjectRef → Action Catalog (Unit {0})
  persist_subjects sid [] w = done tt w
  persist_subjects sid (s ∷ rest) w =
      let next =
        persist_subjects sid rest
          (record w { subjects = insert_subject (subject_row sid s) w.subjects }) in
      if checks.accepts_subject s then next else raised sqlalchemy_error w

  unfoldable pub same : SeriesFields → Bool
  same old =
      str_eq old.source_id new.source_id
      && (opt_uuid_eq old.entity_id new.entity_id
          && (str_eq old.metric new.metric
              && (str_eq old.frequency new.frequency
                  && (str_eq old.unit new.unit
                      && (opt_str_eq old.currency_code new.currency_code
                          && (str_eq old.restatement_basis new.restatement_basis
                              && (opt_str_eq old.accounting_standard new.accounting_standard
                                  && (opt_str_eq old.consolidation new.consolidation
                                      && (opt_str_eq old.period_type new.period_type
                                          && (opt_str_eq old.description new.description
                                              && (str_eq old.pii_class new.pii_class
                                                  && checks.dict_eq old.metadata
                                                      new.metadata)))))))))))

  abbrev pub result : ℕ → Bool → SeriesUpsertResult
  result sid created = record { series_id = sid; created = created }

  -- The idempotent hit.
  unfoldable pub return_existing : CatalogRow → Action Catalog SeriesUpsertResult
  return_existing r = do
    persist_subjects r.series_id subjects
    audit (
        series_record r.series_id "series.idempotent_hit"
          (some (short_payload r.series_id code r.fields))
          (some (short_payload r.series_id code r.fields))
          (field "returned_existing" (bool true) end))
    pure (result r.series_id false)

  -- The columns as they are stored.
  abbrev pub stored : SeriesFields
  stored = record new { metadata = checks.jsonb new.metadata }

  -- SET …, updated_at = now()
  unfoldable pub changed : ℕ → CatalogRow → CatalogRow
  changed now r = record r { fields = stored; cols = audit_cols ctx; updated_at = now }

  unfoldable pub guard_immutable : CatalogRow → List String → Action Catalog (Unit {0})
  guard_immutable r [] w = done tt w
  guard_immutable r (name ∷ names) w =
      let count = count_observations r.series_id w.rows in
      if ltb 0 count then raised (series_code_conflict (name ∷ names) count) w else done tt w

  unfoldable pub update_row : CatalogRow → Action Catalog (Unit {0})
  update_row r w =
      if checks.accepts new && checks.refers new
      then done tt (record w { series = update_series r.series_id (changed ctx.now) w.series })
      else raised sqlalchemy_error w

  -- After the UPDATE.
  unfoldable pub change_recorded : CatalogRow → Action Catalog SeriesUpsertResult
  change_recorded r = do
    persist_subjects r.series_id subjects
    audit (
        series_record r.series_id "series.update" (some (full_payload r.series_id code r.fields))
          (some (full_payload r.series_id code new)) end)
    pure (result r.series_id false)

  -- `_upsert_series_field_change`
  unfoldable pub upsert_series_field_change : CatalogRow → Action Catalog SeriesUpsertResult
  upsert_series_field_change r = do
    guard_immutable r (immutable_changes r.fields new)
    update_row r
    change_recorded r

  -- `_reconcile_existing`
  unfoldable pub reconcile_existing : CatalogRow → Action Catalog SeriesUpsertResult
  reconcile_existing r w =
      if same r.fields then return_existing r w else upsert_series_field_change r w

  abbrev pub inserted_row : ℕ → CatalogRow
  inserted_row sid = record {
    series_id = sid;
    series_code = code;
    fields = stored;
    cols = audit_cols ctx;
    created_at = ctx.now;
    updated_at = ctx.now;
  }

  -- INSERT … ON CONFLICT (series_code) DO NOTHING RETURNING series_id: the sequence moves on also at a
  -- conflict. `keys` says whether the foreign keys of the row are there, which is looked at after the
  -- conflict.
  abbrev pub insert_missing : Option CatalogRow → (keys : Bool) → Action Catalog (Option ℕ)
  insert_missing (some r) keys w = done none (record w { next_series_id = suc w.next_series_id })
  insert_missing none false w =
      raised sqlalchemy_error (record w { next_series_id = suc w.next_series_id })
  insert_missing none true w = done (some w.next_series_id) (record w {
    series = w.series ++ inserted_row w.next_series_id ∷ [];
    next_series_id = suc w.next_series_id;
  })

  unfoldable pub insert_series : Action Catalog (Option ℕ)
  insert_series w =
      if checks.accepts new
      then insert_missing (find_series code (meanwhile w).series) (checks.refers new) (meanwhile w)
      else raised sqlalchemy_error (meanwhile w)

  -- The assertion fails where there is no winner.
  abbrev pub reconcile_winner : Option CatalogRow → Action Catalog SeriesUpsertResult
  reconcile_winner none = raise other_error
  reconcile_winner (some r) = reconcile_existing r

  unfoldable pub finish_insert : Option ℕ → Action Catalog SeriesUpsertResult
  finish_insert none w = reconcile_winner (find_series code w.series) w
  finish_insert (some sid) w =
      (do
        persist_subjects sid subjects
        audit (series_record sid "series.upsert" none (some (short_payload sid code new)) end)
        pure (result sid true))
        w

  -- `_upsert_series_fresh`
  unfoldable pub upsert_series_fresh : Action Catalog SeriesUpsertResult
  upsert_series_fresh = do sid ← insert_series; finish_insert sid

  abbrev pub by_existing : Option CatalogRow → Action Catalog SeriesUpsertResult
  by_existing none = upsert_series_fresh
  by_existing (some r) = reconcile_existing r

  unfoldable pub upsert_checked : Option Fields → Action Catalog SeriesUpsertResult
  upsert_checked metadata = do
    assert_actor_or_strict_raise ctx
    lift (check_request checks code new.pii_class new.description metadata subjects)
    (λ w. by_existing (find_series code w.series) w)

-- `metadata if metadata is not None else {}`
abbrev pub or_empty : Option Fields → Fields
or_empty none = end
or_empty (some m) = m

-- The metadata of `fields` is not read: `metadata` is that argument.
abbrev pub request_of :
    Checks
    → Context
    → ℕ
    → (Catalog → Catalog)
    → String
    → SeriesFields
    → Option Fields
    → List SubjectRef
    → Request
request_of checks ctx run meanwhile code fields metadata subjects = record {
  checks = checks;
  ctx = ctx;
  run = run;
  meanwhile = meanwhile;
  code = code;
  new = record fields { metadata = or_empty metadata };
  subjects = subjects;
}

unfoldable pub upsert_series :
    Checks
    → Context
    → ℕ
    → (Catalog → Catalog)
    → String
    → SeriesFields
    → Option Fields
    → List SubjectRef
    → Action Catalog SeriesUpsertResult
upsert_series checks ctx run meanwhile code fields metadata subjects =
    upsert_checked (request_of checks ctx run meanwhile code fields metadata subjects) metadata
