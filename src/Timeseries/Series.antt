-- ===== src/Timeseries/Series.antt =====
-- `get_series` of timeseries/reader.py: the catalog row of a code, with its subjects. `subject_le` is
-- the order of text in the database, by subject_id and role. The tracing is left out.
pub mod RoundTrip
use aslan_core.Base.{
  ℕ, String, Bool, true, false, Option, none, some, List, [], ◌∷◌, ◌==◌, if◌then◌else◌,
}
use aslan_core.Base.Sort.{sort_by}
use aslan_core.Timeseries.Catalog.{
  SeriesFields, CatalogRow, SubjectRef, SubjectRow, Catalog, find_series,
}

pub record Series : Type 0 where
  pub series_id : ℕ
  pub series_code : String
  pub fields : SeriesFields
  pub subjects : List SubjectRef
  pub created_at : ℕ
  pub updated_at : ℕ

-- SELECT subject_id, role … WHERE series_id = :sid
unfoldable pub select_subjects : ℕ → List SubjectRow → List SubjectRef
select_subjects sid [] = []
select_subjects sid (r ∷ rows) =
    let rest = select_subjects sid rows in if r.series_id == sid then r.subject ∷ rest else rest

module _ (subject_le : SubjectRef → SubjectRef → Bool) where
  unfoldable pub series_of : CatalogRow → List SubjectRow → Series
  series_of r rows = record {
    series_id = r.series_id;
    series_code = r.series_code;
    fields = r.fields;
    subjects = sort_by subject_le (select_subjects r.series_id rows);
    created_at = r.created_at;
    updated_at = r.updated_at;
  }

  abbrev pub with_subjects : Option CatalogRow → List SubjectRow → Option Series
  with_subjects none rows = none
  with_subjects (some r) rows = some (series_of r rows)

  unfoldable pub get_series : String → Catalog → Option Series
  get_series code w = with_subjects (find_series code w.series) w.subjects
