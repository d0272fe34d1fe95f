-- ===== src/Timeseries/Batch.antt =====
-- The parts of `ObservationWriter.write` that touch no database: Phase 0 (validation of the rows,
-- deduplication) and the rows that a chunk binds.
pub mod Dedup
pub mod Keys
use aslan_core.Base.{
  ℕ, zero, suc, ◌+◌, String, Bool, true, false, ◌&&◌, ◌||◌, not, Option, none, some, List, [], ◌∷◌,
  ◌++◌, is_some, is_none, ◌==◌, if◌then◌else◌, length, take, drop,
}
use aslan_core.Result.{
  Error, Result, ok, err, observation_validation, observation_conflict, ◌>>=◌, ◌>>◌,
}
use aslan_core.Json.{Fields}
use aslan_core.Audit.Recorder.{AuditCols}
use aslan_core.Timeseries.Payload.{payload_hash}
use aslan_core.Timeseries.Types.{ObservationIn, Stamp, stamp_eq, stamp_of, Env}
use aslan_core.Timeseries.Metadata.{validate_fields}
use aslan_core.Timeseries.Table.{ObsRow}

-- Phase 0a, at row `i`.
unfoldable pub validate_row : ℕ → ObservationIn → Result (Unit {0})
validate_row i o =
    if is_none o.ts.utcoffset
    then err (observation_validation i "ts")
    else if is_none o.as_of.utcoffset
    then err (observation_validation i "as_of")
    else if (is_none o.value && is_none o.value_text) || (is_some o.value && is_some o.value_text)
    then err (observation_validation i "value")
    else ok tt

unfoldable pub validate_rows : ℕ → List ObservationIn → Result (Unit {0})
validate_rows i [] = ok tt
validate_rows i (o ∷ os) = do validate_row i o; validate_rows (i + 1) os

-- The dict `seen`, from the key within the series to the payload hash.
abbrev pub Seen : Type 0
Seen = List (Stamp × ℕ)

unfoldable pub seen_hash : Stamp → Seen → Option ℕ
seen_hash k [] = none
seen_hash k ((j, h) ∷ seen) = if stamp_eq j k then some h else seen_hash k seen

module _ (env : Env) (sid : ℕ) where
  -- `if o.metadata is not None: _validate_no_numeric_string_keys(o.metadata)`
  unfoldable pub validate_metadata : Option Fields → Result (Unit {0})
  validate_metadata none = ok tt
  validate_metadata (some fs) = validate_fields env.is_digit fs

  -- Phase 0b. `seen` is in the order of insertion; a key is added only when it is not there.
  unfoldable pub dedup :
      List ObservationIn → Seen → List ObservationIn → Result (Seen × List ObservationIn)
  dedup [] seen deduped = ok (seen, deduped)
  dedup (o ∷ os) seen deduped = do
    validate_metadata o.metadata
    ph ← payload_hash env o
    let keep = dedup os (seen ++ (stamp_of o, ph) ∷ []) (deduped ++ o ∷ [])
    let drop = dedup os seen deduped
    elim (seen_hash (stamp_of o) seen) [
      | none ↦ keep
      | some h ↦
          if h == ph
          then drop
          else err (observation_conflict sid (stamp_of o).ts (stamp_of o).as_of (some h) ph)
    ]

  -- The bound columns of one row.
  abbrev pub row_of : AuditCols → ℕ → ObservationIn → ℕ → ObsRow
  row_of cols run o ph = record {
    series_id = sid;
    stamp = stamp_of o;
    value = o.value;
    value_text = o.value_text;
    quality_flag = o.quality_flag;
    ingestion_run_id = run;
    payload_hash = ph;
    metadata = o.metadata;
    cols = cols;
  }

  -- The rows of one INSERT.
  unfoldable pub rows_of : AuditCols → ℕ → List ObservationIn → Result (List ObsRow)
  rows_of cols run [] = ok []
  rows_of cols run (o ∷ os) = do
    ph ← payload_hash env o
    rest ← rows_of cols run os
    ok (row_of cols run o ph ∷ rest)

-- `deduped[i : i + n] for i in range(0, len(deduped), n)`: at most `fuel` chunks of `n`.
unfoldable pub chunks {ℓ} : {A : Type ℓ} → ℕ → ℕ → List A → List (List A)
chunks zero n xs = []
chunks (suc fuel) n [] = []
chunks (suc fuel) n (x ∷ xs) = take n (x ∷ xs) ∷ chunks fuel n (drop n (x ∷ xs))
