-- ===== src/Timeseries/Gate.antt =====
-- What `upsert_series` of timeseries/writer.py checks before its first statement: the keys of the
-- metadata, and of an identifying series the PII in its clear-text columns and its metadata, and its
-- subjects. The messages of the exceptions are left out.
use aslan_core.Base.{ℕ, String, Bool, Option, none, some, List, [], ◌∷◌, str_eq, if◌then◌else◌}
use aslan_core.Result.{
  Error, Result, ok, err, identifying_series_pii_in_clear_text, identifying_series_missing_subject,
  identifying_series_metadata_pii, ◌>>◌,
}
use aslan_core.Json.{Fields}
use aslan_core.Timeseries.Metadata.{validate_fields, key}
use aslan_core.Timeseries.Pii.{PiiFinding, Match, scan_string, find_pii_in_metadata}
use aslan_core.Timeseries.Catalog.{SeriesFields, SubjectRef}

-- What the upsert calls: `\d` and `finditer` of the module re, `==` of dicts, the metadata that a
-- select returns after `json.dumps` and the cast to JSONB, the CHECK constraints of the two
-- tables, and whether the rows are there that the foreign keys of a series refer to.
pub record Checks : Type 0 where
  pub is_digit : ℕ → Bool
  pub finditer : String → String → List Match
  pub dict_eq : Fields → Fields → Bool
  pub jsonb : Fields → Fields
  pub accepts : SeriesFields → Bool
  pub refers : SeriesFields → Bool
  pub accepts_subject : SubjectRef → Bool

-- The key of metadata that is not scanned.
abbrev pub skipped : String → Bool
skipped k = str_eq k "subjects"

-- `find_pii_in_clear_text`
unfoldable pub find_pii_in_clear_text :
    (String → String → List Match) → String → Option String → List PiiFinding
find_pii_in_clear_text finditer name none = []
find_pii_in_clear_text finditer name (some value) = scan_string finditer (key name ∷ []) value

-- An exception at the first finding.
abbrev pub refuse : List PiiFinding → Error → Result (Unit {0})
refuse [] raised = ok tt
refuse (f ∷ found) raised = err raised

abbrev pub require : List SubjectRef → Result (Unit {0})
require [] = err identifying_series_missing_subject
require (s ∷ rest) = ok tt

module _ (checks : Checks) where
  unfoldable pub check_identifying :
      String → Option String → Option Fields → List SubjectRef → Result (Unit {0})
  check_identifying code description metadata subjects = do
    refuse (find_pii_in_clear_text checks.finditer "series_code" (some code))
        identifying_series_pii_in_clear_text
    refuse (find_pii_in_clear_text checks.finditer "description" description)
        identifying_series_pii_in_clear_text
    require subjects
    refuse (find_pii_in_metadata checks.finditer skipped metadata) identifying_series_metadata_pii

  abbrev pub check_keys : Option Fields → Result (Unit {0})
  check_keys none = ok tt
  check_keys (some m) = validate_fields checks.is_digit m

  -- By the class of the series.
  unfoldable pub check_request :
      String → String → Option String → Option Fields → List SubjectRef → Result (Unit {0})
  check_request code pii_class description metadata subjects = do
    check_keys metadata
    (if str_eq pii_class "identifying"
        then check_identifying code description metadata subjects
        else ok tt)
