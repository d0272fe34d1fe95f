-- ===== src/Timeseries/Table.antt =====
-- `ts.observation` and the two statements that timeseries/writer.py sends to it. A digest is the
-- number that its 64 hex digits spell, so that `strip()` of the CHAR(64) column changes nothing.
pub mod Laws
pub mod Counts
use aslan_core.Base.{
  ℕ, ◌+◌, String, Bool, true, false, ◌&&◌, ◌||◌, not, Option, none, some, List, [], ◌∷◌, ◌++◌,
  is_some, ◌==◌, if◌then◌else◌, map,
}
use aslan_core.Json.{ℤ, Fields}
use aslan_core.Audit.Recorder.{AuditCols}
use aslan_core.Timeseries.Types.{Stamp, stamp_eq}

pub record ObsRow : Type 0 where
  pub series_id : ℕ
  pub stamp : Stamp
  pub value : Option ℕ
  pub value_text : Option String
  pub quality_flag : ℤ
  pub ingestion_run_id : ℕ
  pub payload_hash : ℕ
  pub metadata : Option Fields
  pub cols : AuditCols

-- The key of a row is (series_id, ts, as_of).
unfoldable pub at : ObsRow → ℕ → Stamp → Bool
at r sid k = r.series_id == sid && stamp_eq r.stamp k

-- SELECT payload_hash … for one key.
unfoldable pub select_hash : ℕ → Stamp → List ObsRow → Option ℕ
select_hash sid k [] = none
select_hash sid k (r ∷ rows) = if at r sid k then some r.payload_hash else select_hash sid k rows

-- INSERT … VALUES … ON CONFLICT (series_id, ts, as_of) DO NOTHING RETURNING ts, as_of, where the
-- database does not refuse it: the rows then stored and the keys of those inserted.
unfoldable pub insert_rows : List ObsRow → List ObsRow → List ObsRow × List Stamp
insert_rows [] rows = (rows, [])
insert_rows (n ∷ ns) rows =
    let skipped = insert_rows ns rows in
    let (rows', inserted) = insert_rows ns (rows ++ n ∷ []) in
    if is_some (select_hash n.series_id n.stamp rows) then skipped else (rows', n.stamp ∷ inserted)

-- `k in keys`
unfoldable pub mem : Stamp → List Stamp → Bool
mem k [] = false
mem k (j ∷ keys) = stamp_eq j k || mem k keys

-- `a | b` of two sets
unfoldable pub union : List Stamp → List Stamp → List Stamp
union a [] = a
union a (k ∷ b) = union (if mem k a then a else a ++ k ∷ []) b

-- `a - b`
unfoldable pub difference : List Stamp → List Stamp → List Stamp
difference [] b = []
difference (k ∷ a) b = let rest = difference a b in if mem k b then rest else k ∷ rest

abbrev pub stamps : List ObsRow → List Stamp
stamps = map (λ r. r.stamp)
