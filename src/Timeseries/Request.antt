-- ===== src/Timeseries/Request.antt =====
-- What `upsert_series` of timeseries/writer.py is called with and returns, and the functions of its
-- columns: their comparison, their changes, and the payloads of the audit rows.
use aslan_core.Base.{
  ℕ, String, Bool, true, false, not, Option, none, some, List, [], ◌∷◌, str_eq, ◌==◌,
}
use aslan_core.Json.{Fields, field, end, str, num, obj, opt_str}
use aslan_core.Audit.Context.{Context}
use aslan_core.Timeseries.Gate.{Checks}
use aslan_core.Timeseries.Catalog.{SeriesFields, SubjectRef, Catalog}

pub record SeriesUpsertResult : Type 0 where
  pub series_id : ℕ
  pub created : Bool

abbrev pub opt_str_eq : Option String → Option String → Bool
opt_str_eq none none = true
opt_str_eq (some a) (some b) = str_eq a b
opt_str_eq a b = false

abbrev pub opt_uuid_eq : Option ℕ → Option ℕ → Bool
opt_uuid_eq none none = true
opt_uuid_eq (some a) (some b) = a == b
opt_uuid_eq a b = false

-- The payloads of the audit rows.
abbrev pub short_payload : ℕ → String → SeriesFields → Fields
short_payload sid code f = field "series_id" (num sid) (
    field "series_code" (str code) (
      field "source_id" (str f.source_id) (
        field "metric" (str f.metric) (
          field "frequency" (str f.frequency) (
            field "unit" (str f.unit) (
              field "pii_class" (str f.pii_class) (
                field "restatement_basis" (str f.restatement_basis)
                  (field "metadata" (obj f.metadata) end))))))))

abbrev pub full_payload : ℕ → String → SeriesFields → Fields
full_payload sid code f = field "series_id" (num sid) (
    field "series_code" (str code) (
      field "source_id" (str f.source_id) (
        field "metric" (str f.metric) (
          field "frequency" (str f.frequency) (
            field "unit" (str f.unit) (
              field "currency_code" (opt_str f.currency_code) (
                field "restatement_basis" (str f.restatement_basis) (
                  field "accounting_standard" (opt_str f.accounting_standard) (
                    field "consolidation" (opt_str f.consolidation) (
                      field "period_type" (opt_str f.period_type) (
                        field "description" (opt_str f.description) (
                          field "pii_class" (str f.pii_class)
                            (field "metadata" (obj f.metadata) end)))))))))))))

abbrev pub when : Bool → String → List String → List String
when true name rest = name ∷ rest
when false name rest = rest

-- `immutable_changes`
unfoldable pub immutable_changes : SeriesFields → SeriesFields → List String
immutable_changes old new = when (not (str_eq old.source_id new.source_id)) "source_id" (
    when (not (str_eq old.frequency new.frequency)) "frequency"
      (when (not (str_eq old.unit new.unit)) "unit" []))

-- The arguments, the actor and the time, and the environment of a call.
pub record Request : Type 0 where
  pub checks : Checks
  pub ctx : Context
  pub run : ℕ
  pub meanwhile : Catalog → Catalog
  pub code : String
  pub new : SeriesFields
  pub subjects : List SubjectRef
