-- ===== src/Timeseries/Catalog.antt =====
-- `ts.series_catalog` and `ts.series_subject`, and the statements that timeseries/writer.py sends to
-- them. A UUID is its number, and a time is in microseconds.
pub mod Laws
use aslan_core.Base.{
  ℕ, suc, ◌+◌, String, Bool, true, false, ◌&&◌, not, Option, none, some, List, [], ◌∷◌, ◌++◌,
  str_eq, ◌==◌, if◌then◌else◌,
}
use aslan_core.Json.{Fields}
use aslan_core.Audit.Recorder.{Event, AuditCols}
use aslan_core.Timeseries.Table.{ObsRow}
use aslan_core.Timeseries.Writer.{BatchKey}

-- The columns of a series that an upsert compares and writes.
pub record SeriesFields : Type 0 where
  pub source_id : String
  pub entity_id : Option ℕ
  pub metric : String
  pub frequency : String
  pub unit : String
  pub currency_code : Option String
  pub restatement_basis : String
  pub accounting_standard : Option String
  pub consolidation : Option String
  pub period_type : Option String
  pub description : Option String
  pub pii_class : String
  pub metadata : Fields

pub record CatalogRow : Type 0 where
  pub series_id : ℕ
  pub series_code : String
  pub fields : SeriesFields
  pub cols : AuditCols
  pub created_at : ℕ
  pub updated_at : ℕ

pub record SubjectRef : Type 0 where
  pub subject_id : String
  pub role : String

-- A row of `ts.series_subject`, whose key is (series_id, subject_id, role).
pub record SubjectRow : Type 0 where
  pub series_id : ℕ
  pub subject : SubjectRef
  pub actor_id : Option String
  pub actor_kind : Option String
  pub request_id : Option ℕ

-- What a session sees of the tables, and the next value of the sequence of series_id.
pub record Catalog : Type 0 where
  pub series : List CatalogRow
  pub subjects : List SubjectRow
  pub next_series_id : ℕ
  pub rows : List ObsRow
  pub events : List Event
  pub batch_keys : List BatchKey

-- SELECT … WHERE series_code = :code
unfoldable pub find_series : String → List CatalogRow → Option CatalogRow
find_series code [] = none
find_series code (r ∷ series) =
    let rest = find_series code series in if str_eq r.series_code code then some r else rest

-- UPDATE … WHERE series_id = :series_id
unfoldable pub update_series : ℕ → (CatalogRow → CatalogRow) → List CatalogRow → List CatalogRow
update_series sid f [] = []
update_series sid f (r ∷ series) =
    (if r.series_id == sid then f r else r) ∷ update_series sid f series

-- SELECT COUNT(*) FROM ts.observation WHERE series_id = :sid
unfoldable pub count_observations : ℕ → List ObsRow → ℕ
count_observations sid [] = 0
count_observations sid (r ∷ rows) =
    (if r.series_id == sid then 1 else 0) + count_observations sid rows

unfoldable pub is_subject : ℕ → SubjectRef → SubjectRow → Bool
is_subject sid s r =
    r.series_id == sid && (str_eq r.subject.subject_id s.subject_id && str_eq r.subject.role s.role)

unfoldable pub has_subject : ℕ → SubjectRef → List SubjectRow → Bool
has_subject sid s [] = false
has_subject sid s (r ∷ rows) =
    let rest = has_subject sid s rows in if is_subject sid s r then true else rest

-- INSERT … ON CONFLICT (series_id, subject_id, role) DO NOTHING
unfoldable pub insert_subject : SubjectRow → List SubjectRow → List SubjectRow
insert_subject n rows = if has_subject n.series_id n.subject rows then rows else rows ++ n ∷ []
