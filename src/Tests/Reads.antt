-- ===== src/Tests/Reads.antt =====
-- `ObservationReader` before and after a restatement.
use aslan_core.Base.{List, ◌++◌, map, ℕ, false, none, some, [], ◌∷◌, ◌≡◌, ◌⊎◌, refl, arith}
use aslan_core.Action.{done, state}
use aslan_core.Audit.Context.{current_actor}
use aslan_core.Audit.Recorder.{assert_actor_or_strict_raise}
use aslan_core.Timeseries.Types.{stamp_eq, stamp_of, WriteCount}
use aslan_core.Timeseries.Bytes.{big_endian, unsigned_bytes, signed_bytes, utf8, encode, hex}
use aslan_core.Timeseries.Payload.{
  validate_finite, finite_fields, norm, norm_fields, normed_dict, canonical_json_bytes, counted,
  value_bytes, text_bytes, payload_bytes, payload_hash,
}
use aslan_core.Timeseries.Metadata.{validate_fields}
use aslan_core.Timeseries.Table.{ObsRow, select_hash, insert_rows, at, mem, union, difference}
use aslan_core.Timeseries.BatchHash.{
  items_of, prefixed, item_bytes, all_bytes, batch_bytes, compute_batch_hash,
}
use aslan_core.Timeseries.Batch.{
  validate_row, validate_rows, seen_hash, validate_metadata, dedup, rows_of, chunks,
}
use aslan_core.Timeseries.Writer.{
  Session, chunk_hash, chunk_keys, check_key, check_keys, accepted, permitted, insert_chunk,
  write_chunk, write_chunks, key_rows, emit_write_batch_audit, write_deduped, write,
}
use aslan_core.Base.Sort.{insert_by, sort_by}
use aslan_core.Base.Sort.{In}
use aslan_core.Timeseries.Reader.{latest, observation_of, where_latest, range}
use aslan_core.Timeseries.Reader.Latest.{IsNewest, latest_lem}
use aslan_core.Timeseries.Reader.Range.{IsRange}
use aslan_core.Timeseries.Reader.Limit.{Limits, range_lem}
use aslan_core.Timeseries.Reader.Replay.{SameReads, write_keeps_past}
use aslan_core.Tests.Sample.{env, strict, batch, empty, obs}

abbrev early : Session
early = state (write env strict 3 9 500 batch empty)

-- A restatement of the observation at 10, known from 30 on.
abbrev restated : Session
restated = state (write env strict 4 9 600 (obs 10 30 3 ∷ []) early)

abbrev restated_count : WriteCount
restated_count = record { attempted = 1; inserted = 1; updated = 0; unchanged = 0 }

restatement : write env strict 4 9 600 (obs 10 30 3 ∷ []) early ≡ done restated_count restated
unfolding write assert_actor_or_strict_raise current_actor validate_row validate_rows dedup
    validate_metadata validate_fields seen_hash stamp_eq stamp_of payload_hash payload_bytes
    validate_finite finite_fields text_bytes value_bytes signed_bytes unsigned_bytes big_endian
    counted canonical_json_bytes norm norm_fields normed_dict sort_by insert_by encode utf8
    write_deduped write_chunks write_chunk chunks rows_of accepted permitted insert_chunk
    insert_rows select_hash at chunk_keys union difference mem check_keys check_key chunk_hash
    emit_write_batch_audit compute_batch_hash batch_bytes items_of all_bytes item_bytes prefixed hex
    key_rows
restatement = refl

write_keeps_past_example : SameReads 9 (some 25) restated.rows early.rows
write_keeps_past_example =
    write_keeps_past env strict 4 9 600 (obs 10 30 3 ∷ []) early restated restated_count 25 9
      (omega arith, tt) restatement

abbrev other : ℕ
other = 8

latest_lem_example :
    ((latest 9 (some 25) restated.rows ≡ none)
      × ((q : ObsRow) → In q restated.rows → where_latest 9 (some 25) q ≡ false))
    ⊎ ((r : ObsRow) × (latest 9 (some 25) restated.rows ≡ some (observation_of r))
        × IsNewest 9 (some 25) restated.rows r)
latest_lem_example = latest_lem 9 (some 25) restated.rows

range_lem_example :
    (kept : List ObsRow) × (rest : List ObsRow) × (range 9 0 100 none (some 1) restated.rows
      ≡ map observation_of kept)
    × IsRange 9 0 100 none restated.rows (kept ++ rest)
    × Limits (some 1) kept rest
range_lem_example = range_lem 9 0 100 none (some 1) restated.rows
