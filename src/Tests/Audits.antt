-- ===== src/Tests/Audits.antt =====
-- The recorder and the actor at concrete inputs, and the walkers over metadata.
use mathlib.Core.Path.{subst}
use aslan_core.Base.{true, none, some, ◌≡◌, refl, ℕ}
use aslan_core.Json.{Fields, field, end, null, arr, obj, nil}
use aslan_core.Timeseries.Pii.Tuples.{no_tuples, none_in_items, none_in_fields}
use aslan_core.Audit.Context.{IsActor, HasActor, valid_kind}
use aslan_core.Audit.Recorder.{AuditRecord}
use aslan_core.Timeseries.Metadata.{validate_fields, has_numeric_string_keys}
use aslan_core.Timeseries.Metadata.Agreement.{verdict, validate-has_numeric_string_keys}
use aslan_core.Tests.Sample.{alice, strict, env}

abbrev entry : AuditRecord
entry = record {
  operation = "watermark.set";
  target_schema = "src";
  target_table = "watermark";
  target_pk = end;
  before = none;
  after = none;
  metadata = end;
  ingestion_run_id = none;
}

alice-IsActor : IsActor alice
unfolding valid_kind
alice-IsActor = record { named = refl; kind = refl }

strict-HasActor : HasActor strict
strict-HasActor a e = let same : alice ≡ a = cc in subst IsActor same alice-IsActor

abbrev before : ℕ
before = 5

abbrev nested : Fields
nested = field "a" (arr nil) (field "12" null end)

nested-no_tuples : no_tuples (obj nested) ≡ true
unfolding no_tuples none_in_items none_in_fields
nested-no_tuples = refl

validate-has_numeric_string_keys_example :
    validate_fields env.is_digit nested
    ≡ verdict (has_numeric_string_keys env.is_digit (some nested))
validate-has_numeric_string_keys_example =
    validate-has_numeric_string_keys env.is_digit nested nested-no_tuples
