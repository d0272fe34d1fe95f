-- ===== src/Timeseries/Reader.antt =====
-- `ObservationReader.latest` and `ObservationReader.range` of timeseries/reader.py: the two SELECT
-- statements, by their clauses. The connection and the tracing are not modelled.
pub mod Rows
pub mod Latest
pub mod Range
pub mod Limit
pub mod Replay
use aslan_core.Base.{
  ℕ, zero, suc, String, Bool, true, false, ◌&&◌, ◌||◌, Option, none, some, List, [], ◌∷◌, ◌++◌,
  ◌==◌, ltb, leb, if◌then◌else◌, map, take,
}
use aslan_core.Base.Sort.{sort_by}
use aslan_core.Json.{ℤ, Fields, end}
use aslan_core.Timeseries.Types.{Stamp}
use aslan_core.Timeseries.Table.{ObsRow}

-- `Observation` of schemas/timeseries.py.
pub record Observation : Type 0 where
  pub series_id : ℕ
  pub stamp : Stamp
  pub value : Option ℕ
  pub value_text : Option String
  pub quality_flag : ℤ
  pub ingestion_run_id : ℕ
  pub metadata : Fields

-- `row.metadata if row.metadata is not None else {}`
abbrev pub metadata_or_empty : Option Fields → Fields
metadata_or_empty none = end
metadata_or_empty (some m) = m

unfoldable pub observation_of : ObsRow → Observation
observation_of r = record {
  series_id = r.series_id;
  stamp = r.stamp;
  value = r.value;
  value_text = r.value_text;
  quality_flag = r.quality_flag;
  ingestion_run_id = r.ingestion_run_id;
  metadata = metadata_or_empty r.metadata;
}

-- `:pit IS NULL OR as_of <= :pit`
unfoldable pub known_at : Option ℕ → ObsRow → Bool
known_at none r = true
known_at (some pit) r = leb r.stamp.as_of pit

-- The WHERE clause of `latest`, and of `range`.
unfoldable pub where_latest : ℕ → Option ℕ → ObsRow → Bool
where_latest sid pit r = r.series_id == sid && known_at pit r

unfoldable pub where_range : ℕ → ℕ → ℕ → Option ℕ → ObsRow → Bool
where_range sid start stop pit r =
    r.series_id == sid && leb start r.stamp.ts && ltb r.stamp.ts stop && known_at pit r

unfoldable pub select : (ObsRow → Bool) → List ObsRow → List ObsRow
select p [] = []
select p (r ∷ rows) = let rest = select p rows in if p r then r ∷ rest else rest

-- ORDER BY ts DESC, as_of DESC
abbrev pub newest_first : ObsRow → ObsRow → Bool
newest_first a b =
    ltb b.stamp.ts a.stamp.ts || a.stamp.ts == b.stamp.ts && leb b.stamp.as_of a.stamp.as_of

-- ORDER BY ts ASC, as_of DESC
abbrev pub oldest_first : ObsRow → ObsRow → Bool
oldest_first a b =
    ltb a.stamp.ts b.stamp.ts || a.stamp.ts == b.stamp.ts && leb b.stamp.as_of a.stamp.as_of

-- The ORDER BY of the two outer queries.
abbrev pub ts_desc : ObsRow → ObsRow → Bool
ts_desc a b = leb b.stamp.ts a.stamp.ts

abbrev pub ts_asc : ObsRow → ObsRow → Bool
ts_asc a b = leb a.stamp.ts b.stamp.ts

abbrev pub same_ts : Option ℕ → ObsRow → Bool
same_ts none r = false
same_ts (some t) r = t == r.stamp.ts

-- DISTINCT ON (series_id, ts) of rows of one series: the first of each run with one `ts`.
unfoldable pub distinct_on : Option ℕ → List ObsRow → List ObsRow
distinct_on last [] = []
distinct_on last (r ∷ rows) =
    let skip = distinct_on last rows in
    let keep = r ∷ distinct_on (some r.stamp.ts) rows in if same_ts last r then skip else keep

-- LIMIT 1, and `.first()`
abbrev pub first : List ObsRow → Option Observation
first [] = none
first (r ∷ _) = some (observation_of r)

unfoldable pub latest : ℕ → Option ℕ → List ObsRow → Option Observation
latest sid pit rows =
    first (
      sort_by ts_desc
        (distinct_on none (sort_by newest_first (select (where_latest sid pit) rows))))

-- LIMIT :lim, if there is one.
abbrev pub limited : Option ℕ → List ObsRow → List ObsRow
limited none rows = rows
limited (some n) rows = take n rows

unfoldable pub range_rows : ℕ → ℕ → ℕ → Option ℕ → List ObsRow → List ObsRow
range_rows sid start stop pit rows =
    sort_by ts_asc
      (distinct_on none (sort_by oldest_first (select (where_range sid start stop pit) rows)))

unfoldable pub range : ℕ → ℕ → ℕ → Option ℕ → Option ℕ → List ObsRow → List Observation
range sid start stop pit limit rows =
    map observation_of (limited limit (range_rows sid start stop pit rows))
