-- ===== src/Watermark/Table.antt =====
-- The table `src.watermark`, and the SQL statements of ingestion/watermarks.py as functions on it.
-- A statement returns the table and its row count, or the rows that it selects.
pub mod Laws
use aslan_core.Base.{
  ℕ, zero, suc, ◌+◌, String, Bool, true, false, ◌&&◌, Option, none, some, List, [], ◌∷◌, ◌++◌,
  str_eq, if◌then◌else◌,
}
use aslan_core.Audit.Recorder.{AuditCols}

-- The primary key.
pub record Key : Type 0 where
  pub source_id : String
  pub job_name : String
  pub key : String

pub record Row : Type 0 where
  pub at : Key
  pub cursor_value : String
  pub updated_at : ℕ
  pub cols : AuditCols

-- WHERE source_id = :sid AND job_name = :job AND key = :k
unfoldable pub key_eq : Key → Key → Bool
key_eq a b = str_eq a.source_id b.source_id && str_eq a.job_name b.job_name && str_eq a.key b.key

-- SELECT cursor_value …, of which the first row is read.
unfoldable pub select_cursor : Key → List Row → Option String
select_cursor k [] = none
select_cursor k (r ∷ rows) = if key_eq r.at k then some r.cursor_value else select_cursor k rows

-- How many rows have the key.
unfoldable pub count_key : Key → List Row → ℕ
count_key k [] = 0
count_key k (r ∷ rows) = (if key_eq r.at k then 1 else 0) + count_key k rows

-- INSERT … ON CONFLICT (source_id, job_name, key) DO NOTHING
unfoldable pub insert_do_nothing : Row → List Row → List Row × ℕ
insert_do_nothing row rows = elim (count_key row.at rows) [
  | zero ↦ (rows ++ row ∷ [], 1)
  | suc _ ↦ (rows, 0)
]

-- UPDATE … SET cursor_value, updated_at, audit columns WHERE key matches AND cursor_value = :expected
unfoldable pub update_where : Row → String → List Row → List Row × ℕ
update_where new expected [] = ([], 0)
update_where new expected (r ∷ rows) =
    let rest = update_where new expected rows in
    if key_eq r.at new.at && str_eq r.cursor_value expected
    then (record new { at = r.at } ∷ rest.0, suc rest.1)
    else (r ∷ rest.0, rest.1)

-- DO UPDATE of the conflicting row.
unfoldable pub overwrite : Row → List Row → List Row
overwrite new [] = []
overwrite new (r ∷ rows) =
    (if key_eq r.at new.at then record new { at = r.at } else r) ∷ overwrite new rows

-- INSERT … ON CONFLICT (source_id, job_name, key) DO UPDATE SET …
unfoldable pub upsert : Row → List Row → List Row
unfolding overwrite
upsert row rows = elim (count_key row.at rows) [
  | zero ↦ rows ++ row ∷ []
  | suc _ ↦ overwrite row rows
]

-- SELECT key, cursor_value … WHERE source_id = :sid AND job_name = :job
unfoldable pub select_job : String → String → List Row → List (String × String)
select_job source job [] = []
select_job source job (r ∷ rows) =
    let rest = select_job source job rows in
    if str_eq r.at.source_id source && str_eq r.at.job_name job
    then (r.at.key, r.cursor_value) ∷ rest
    else rest
