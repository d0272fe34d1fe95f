-- ===== src/Tests/Upserts.antt =====
-- `upsert_series` and `get_series` at concrete catalogs.
use aslan_core.Base.{
  String, Bool, true, false, ◌&&◌, not, none, some, List, [], ◌∷◌, ◌++◌, ◌≡◌, refl, str_eq, All,
  if◌then◌else◌, arith, leb,
}
use aslan_core.Base.Sort.{In}
use aslan_core.Action.{done, raised, state}
use aslan_core.Result.{series_code_conflict}
use aslan_core.Json.{Fields, end, pos}
use aslan_core.Audit.Context.{current_actor}
use aslan_core.Audit.Recorder.{
  Event, assert_actor_or_strict_raise, record_event, event_of, audit_cols,
}
use aslan_core.Timeseries.Pii.{Match, scan_string, find_pii_in_metadata}
use aslan_core.Timeseries.Catalog.{
  SeriesFields, SubjectRef, Catalog, find_series, count_observations, has_subject, insert_subject,
}
use aslan_core.Timeseries.Catalog.Laws.{IsKeyed}
use aslan_core.Timeseries.Gate.{Checks, find_pii_in_clear_text, check_identifying, check_request}
use aslan_core.Timeseries.Request.{SeriesUpsertResult, immutable_changes}
use aslan_core.Timeseries.Upsert.{
  request_of, audit, persist_subjects, same, guard_immutable, upsert_series_field_change,
  reconcile_existing, insert_series, finish_insert, upsert_series_fresh, upsert_checked,
  upsert_series,
}
use aslan_core.Timeseries.Upsert.Agrees.{Agrees}
use aslan_core.Timeseries.Upsert.Keys.{upsert_series-IsKeyed}
use aslan_core.Timeseries.Upsert.Deletable.{IsClear, upsert_series-IsClear}
use aslan_core.Timeseries.Upsert.Again.{upsert_series_again}
use aslan_core.Timeseries.Series.{Series, get_series}
use aslan_core.Timeseries.Series.RoundTrip.{get_series-upsert_series}
use aslan_core.Timeseries.Upsert.Frozen.{IsFrozen}
use aslan_core.Timeseries.Calls.{WriterCall, write_call, upsert_call, calls}
use aslan_core.Timeseries.Calls.Frozen.{calls-IsFrozen}
use aslan_core.Tests.Sample.{env, strict, batch}

abbrev both_empty : Fields → Fields → Bool
both_empty end end = true
both_empty a b = false

abbrev find : String → String → List Match
find pattern s =
    if str_eq pattern "email" && str_eq s "a@b.c"
    then record { start = 0; stop = 5; group = "a@b.c" } ∷ []
    else []

abbrev checks : Checks
checks = record {
  is_digit = λ c. leb 48 c && leb c 57;
  finditer = find;
  dict_eq = both_empty;
  jsonb = λ m. m;
  accepts = λ f. not (str_eq f.unit "");
  refers = λ f. str_eq f.source_id "payroll";
  accepts_subject = λ s. str_eq s.role "primary";
}

-- A series of salaries, and the person of it.
abbrev salary : SeriesFields
salary = record {
  source_id = "payroll";
  entity_id = some 4;
  metric = "salary";
  frequency = "1mo";
  unit = "ars";
  currency_code = some "ARS";
  restatement_basis = "nominal";
  accounting_standard = none;
  consolidation = none;
  period_type = none;
  description = some "monthly";
  pii_class = "identifying";
  metadata = end;
}

abbrev person : SubjectRef
person = record { subject_id = "p1"; role = "primary" }

abbrev no_series : Catalog
no_series = record {
  series = [];
  subjects = [];
  next_series_id = 1;
  rows = [];
  events = [];
  batch_keys = [];
}

abbrev others : Catalog → Catalog
others w = w

abbrev upserted : Catalog
upserted = state (upsert_series checks strict 3 others "pay" salary none (person ∷ []) no_series)

abbrev created : SeriesUpsertResult
created = record { series_id = 1; created = true }

first_upsert :
    upsert_series checks strict 3 others "pay" salary none (person ∷ []) no_series
    ≡ done created upserted
unfolding upsert_series upsert_checked assert_actor_or_strict_raise current_actor check_request
    check_identifying find_pii_in_clear_text scan_string find_pii_in_metadata find_series
    upsert_series_fresh insert_series finish_insert persist_subjects insert_subject has_subject
    audit record_event event_of audit_cols
first_upsert = refl

get_series-upsert_series_example :
    (s : Series) × (get_series (λ a b. true) "pay" upserted ≡ some s)
    × (s.series_id ≡ 1)
    × Agrees (request_of checks strict 3 others "pay" salary none (person ∷ [])) s.fields
    × All (λ t. In t s.subjects) (person ∷ [])
get_series-upsert_series_example =
    get_series-upsert_series checks strict 3 others "pay" salary none (person ∷ []) (λ a b. true)
      no_series first_upsert

upsert_series-IsClear_example :
    IsClear checks "pay" (some "monthly") none
    × ((s : SubjectRef) × (has_subject 1 s upserted.subjects ≡ true))
upsert_series-IsClear_example =
    upsert_series-IsClear checks strict 3 others "pay" salary none (person ∷ []) no_series refl
      first_upsert

upsert_series_again_example :
    (e : Event) × (upsert_series checks strict 8 others "pay" salary none (person ∷ []) upserted
      ≡ done
          (record { series_id = 1; created = false })
          (record upserted { events = upserted.events ++ e ∷ [] }))
upsert_series_again_example =
    upsert_series_again checks strict strict 3 8 others others "pay" salary none (person ∷ [])
      no_series first_upsert refl refl

upsert_series-IsKeyed_example :
    IsKeyed (state (upsert_series checks strict 3 others "pay" salary none (person ∷ []) no_series))
upsert_series-IsKeyed_example =
    upsert_series-IsKeyed checks strict 3 others "pay" salary none (person ∷ []) no_series
      (λ v k. k) (record { given_out = tt; distinct = tt })

abbrev hourly : SeriesFields
hourly = record salary { frequency = "1h" }

-- The series has an observation.
abbrev observed : Catalog
observed = record upserted {
  rows =
      record {
        series_id = 1;
        stamp = record { ts = 10; as_of = 20 };
        value = some 5;
        value_text = none;
        quality_flag = pos 0;
        ingestion_run_id = 3;
        payload_hash = 77;
        metadata = none;
        cols = record {
          actor_id = none;
          actor_kind = none;
          client_ip = none;
          user_agent = none;
          request_id = none;
        };
      }
      ∷ [];
}

abbrev attempts : List (Bool × WriterCall)
attempts =
    (true, upsert_call "pay" hourly none (person ∷ []) others)
    ∷ (false, write_call 1 500 batch)
    ∷ []

-- A change of the frequency is refused.
refused_change :
    upsert_series checks strict 3 others "pay" hourly none (person ∷ []) observed
    ≡ raised (series_code_conflict ("frequency" ∷ []) 1) observed
unfolding upsert_series upsert_checked assert_actor_or_strict_raise current_actor check_request
    check_identifying find_pii_in_clear_text scan_string find_pii_in_metadata find_series
    reconcile_existing same upsert_series_field_change immutable_changes guard_immutable
    count_observations upsert_series_fresh insert_series finish_insert persist_subjects
    insert_subject has_subject audit record_event event_of audit_cols
refused_change = refl

observed-IsFrozen : IsFrozen 1 salary observed
unfolding count_observations upsert_series upsert_checked assert_actor_or_strict_raise current_actor
    check_request check_identifying find_pii_in_clear_text scan_string find_pii_in_metadata
    find_series upsert_series_fresh insert_series finish_insert persist_subjects insert_subject
    has_subject audit record_event event_of audit_cols
observed-IsFrozen = record {
  given_out = omega arith;
  fixed = ((λ e. (refl, refl, refl)), tt);
  observed = omega arith;
}

calls-IsFrozen_example : IsFrozen 1 salary (calls env checks strict 3 attempts observed)
calls-IsFrozen_example =
    calls-IsFrozen env checks strict 3 1 salary attempts observed (λ w k. k, (tt, tt))
      observed-IsFrozen
