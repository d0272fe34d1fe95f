-- ===== src/Tests/Writes.antt =====
-- `ObservationWriter.write` at concrete batches.
use aslan_core.Base.{
  ℕ, ◌+◌, ◌≤◌, some, List, [], ◌∷◌, ◌++◌, ◌≡◌, ◌≢◌, ◌↔◌, inl, true, refl, All, length, map, arith,
}
use aslan_core.Action.{done, state}
use aslan_core.Result.{ok}
use aslan_core.Audit.Context.{current_actor}
use aslan_core.Audit.Recorder.{assert_actor_or_strict_raise}
use aslan_core.Timeseries.Types.{Stamp, stamp_eq, stamp_of, WriteCount}
use aslan_core.Timeseries.Bytes.{big_endian, unsigned_bytes, signed_bytes, utf8, encode, hex}
use aslan_core.Timeseries.Payload.{
  validate_finite, finite_fields, norm, norm_fields, normed_dict, canonical_json_bytes, counted,
  value_bytes, text_bytes, payload_bytes, payload_hash,
}
use aslan_core.Timeseries.Metadata.{validate_fields}
use aslan_core.Timeseries.Table.{ObsRow, select_hash, insert_rows, at, mem, union, difference}
use aslan_core.Timeseries.Table.Laws.{Distinct, OfSeries}
use aslan_core.Timeseries.BatchHash.{
  items_of, prefixed, item_bytes, all_bytes, batch_bytes, compute_batch_hash,
}
use aslan_core.Timeseries.Batch.{
  Seen, validate_row, validate_rows, seen_hash, validate_metadata, dedup, rows_of, chunks,
}
use aslan_core.Timeseries.Writer.{
  Session, BatchKey, chunk_hash, chunk_keys, check_key, check_keys, insert_chunk, write_chunk,
  accepted, permitted, write_chunks, key_rows, emit_write_batch_audit, write_deduped, write,
}
use aslan_core.Base.Sort.{insert_by, sort_by}
use aslan_core.Timeseries.Writer.Total.{NoConflict}
use aslan_core.Timeseries.Writer.Correct.{Stored, AuditRow, write_stores}
use aslan_core.Timeseries.Writer.History.{write_keeps_history, Writable, write_returns, write_again}
use aslan_core.Tests.Sample.{env, strict, batch, empty, obs}

abbrev count : WriteCount
count = record { attempted = 3; inserted = 2; updated = 0; unchanged = 0 }

abbrev written : Session
written = state (write env strict 3 9 500 batch empty)

first_write : write env strict 3 9 500 batch empty ≡ done count written
unfolding write assert_actor_or_strict_raise current_actor validate_row validate_rows dedup
    validate_metadata validate_fields seen_hash stamp_eq stamp_of payload_hash payload_bytes
    validate_finite finite_fields text_bytes value_bytes signed_bytes unsigned_bytes big_endian
    counted canonical_json_bytes norm norm_fields normed_dict sort_by insert_by encode utf8
    write_deduped write_chunks write_chunk chunks rows_of insert_chunk insert_rows select_hash at
    chunk_keys union difference mem check_keys check_key chunk_hash emit_write_batch_audit
    compute_batch_hash batch_bytes items_of all_bytes item_bytes prefixed hex key_rows accepted
    permitted
first_write = refl

write_stores_example :
    All (Stored env 9 written.rows) batch
    × ((new : List ObsRow) × (written.rows ≡ [] ++ new) × OfSeries 9 new × (length new ≡ 2))
    × (3 ≡ length batch)
    × (count.updated ≡ 0)
    × (2 + 0 ≤ 3)
    × ((keys : List BatchKey) × (written.batch_keys ≡ [] ++ keys)
        × (length keys ≡ 2 + 0)
        × Distinct (map (λ (b : BatchKey). b.stamp) keys)
        × ((k : Stamp) → mem k (map (λ (b : BatchKey). b.stamp) keys) ≡ mem k (map stamp_of batch))
        × All (AuditRow 9 500 empty written) keys)
write_stores_example = write_stores env strict 3 9 500 batch empty written count first_write

stored_hash : select_hash 9 (stamp_of (obs 10 20 2)) written.rows ≡ some 3065
unfolding write assert_actor_or_strict_raise current_actor validate_row validate_rows dedup
    validate_metadata validate_fields seen_hash stamp_eq stamp_of payload_hash payload_bytes
    validate_finite finite_fields text_bytes value_bytes signed_bytes unsigned_bytes big_endian
    counted canonical_json_bytes norm norm_fields normed_dict sort_by insert_by encode utf8
    write_deduped write_chunks write_chunk chunks rows_of insert_chunk insert_rows select_hash at
    chunk_keys union difference mem check_keys check_key chunk_hash emit_write_batch_audit
    compute_batch_hash batch_bytes items_of all_bytes item_bytes prefixed hex key_rows accepted
    permitted
stored_hash = refl

other_hash : payload_hash env (obs 10 20 2) ≡ ok 3066
unfolding payload_hash payload_bytes validate_finite finite_fields text_bytes value_bytes
    signed_bytes unsigned_bytes big_endian counted canonical_json_bytes norm norm_fields normed_dict
    sort_by insert_by encode utf8
other_hash = refl

abbrev old_hash : ℕ
old_hash = 3065

differ : old_hash ≢ 3066
differ e = omega arith

write_keeps_history_example :
    ((n : WriteCount) (s' : Session)
      → write env strict 4 9 600 (obs 12 20 5 ∷ obs 10 20 2 ∷ []) written ≢ done n s')
    × (select_hash 9
          (stamp_of (obs 10 20 2))
          (state (write env strict 4 9 600 (obs 12 20 5 ∷ obs 10 20 2 ∷ []) written)).rows
        ≡ some 3065)
write_keeps_history_example =
    write_keeps_history env 9 strict 4 600 (obs 12 20 5 ∷ []) (obs 10 20 2) [] written 3065 3066
      stored_hash other_hash differ

write_again_example :
    (m : WriteCount) × (s'' : Session) × (write env strict 4 9 600 batch written ≡ done m s'')
    × (m.inserted ≡ 0)
    × (m.unchanged ≡ 2 + 0)
    × (s''.rows ≡ written.rows)
write_again_example =
    write_again env 9 strict strict 3 4 500 600 batch empty written count first_write refl

abbrev seen : Seen
seen = (stamp_of (obs 10 20 1), 3065) ∷ (stamp_of (obs 11 20 2), 3066) ∷ []

batch_valid : validate_rows 0 batch ≡ ok tt
unfolding validate_rows validate_row
batch_valid = refl

batch_deduped : dedup env 9 batch [] [] ≡ ok (seen, obs 10 20 1 ∷ obs 11 20 2 ∷ [])
unfolding dedup validate_metadata validate_fields seen_hash stamp_eq stamp_of payload_hash
    payload_bytes validate_finite finite_fields text_bytes value_bytes signed_bytes unsigned_bytes
    big_endian counted canonical_json_bytes norm norm_fields normed_dict sort_by insert_by encode
    utf8
batch_deduped = refl

nothing_stored : NoConflict 9 seen []
unfolding select_hash
nothing_stored k h g e _ = absurd (cc)

batch_accepted : accepted env (obs 10 20 1 ∷ obs 11 20 2 ∷ []) ≡ true
unfolding accepted
batch_accepted = refl

write_returns_example :
    ((n : WriteCount) × (s' : Session) × (write env strict 3 9 500 batch empty ≡ done n s'))
    ↔ Writable env 9 strict 3 batch empty
write_returns_example = write_returns env 9 strict 3 500 batch empty

-- It holds of the first batch.
batch-Writable : Writable env 9 strict 3 batch empty
batch-Writable = (
  refl,
  batch_valid,
  seen,
  obs 10 20 1 ∷ obs 11 20 2 ∷ [],
  batch_deduped,
  nothing_stored,
  batch_accepted,
  inl refl,
)

-- The series 10 does not exist: PostgreSQL refuses the batch.
no_series : (n : WriteCount) (s' : Session) → write env strict 3 10 500 batch empty ≢ done n s'
unfolding write assert_actor_or_strict_raise current_actor validate_row validate_rows dedup
    validate_metadata validate_fields seen_hash stamp_eq stamp_of payload_hash payload_bytes
    validate_finite finite_fields text_bytes value_bytes signed_bytes unsigned_bytes big_endian
    counted canonical_json_bytes norm norm_fields normed_dict sort_by insert_by encode utf8
    write_deduped write_chunks write_chunk chunks rows_of insert_chunk insert_rows select_hash at
    accepted permitted
no_series n s' e = absurd (cc)
