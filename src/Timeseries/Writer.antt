-- ===== src/Timeseries/Writer.antt =====
-- `ObservationWriter.write` of timeseries/writer.py. The session is what the open transaction sees:
-- the observations, the audit events, whose ids are their positions, and the per-key audit rows.
-- The advisory lock makes writers of one series run one after the other; it and the metrics are not
-- modelled.
pub mod Chunk
pub mod Split
pub mod Chunks
pub mod Emit
pub mod Total
pub mod Correct
pub mod History
pub mod Kept
use aslan_core.Base.{
  ℕ, zero, suc, ◌+◌, ◌-◌, String, Bool, true, false, ◌&&◌, not, Option, none, some, List, [], ◌∷◌,
  ◌++◌, is_some, is_none, ◌==◌, if◌then◌else◌, length, take, drop, ltb,
}
use aslan_core.Result.{Error, Result, ok, err, observation_conflict, key_error, sqlalchemy_error}
use aslan_core.Timeseries.Batch.{Seen, seen_hash, validate_rows, dedup, rows_of, chunks}
use aslan_core.Action.{Action, Outcome, done, raised, pure, raise, lift, ◌>>=◌, ◌>>◌}
use aslan_core.Json.{Fields, Json, end, field, str, num, null}
use aslan_core.Audit.Context.{Context, current_actor}
use aslan_core.Audit.Recorder.{Event, event_of, assert_actor_or_strict_raise, audit_cols}
use aslan_core.Timeseries.Types.{
  Datetime, ObservationIn, Stamp, stamp_eq, stamp_of, WriteCount, Env,
}
use aslan_core.Timeseries.Metadata.{validate_fields}
use aslan_core.Timeseries.BatchHash.{compute_batch_hash}
use aslan_core.Timeseries.Table.{ObsRow, select_hash, insert_rows, mem, union, difference, stamps}

-- `action` of `audit.observation_batch_keys`
pub data KeyAction : Type 0 where
  inserted unchanged : KeyAction

pub record BatchKey : Type 0 where
  pub event_id : ℕ
  pub occurred_at : ℕ
  pub series_id : ℕ
  pub stamp : Stamp
  pub payload_hash : ℕ
  pub action : KeyAction

pub record Session : Type 0 where
  pub rows : List ObsRow
  pub events : List Event
  pub batch_keys : List BatchKey

-- The dict `chunk_hash_by_key` at a key.
unfoldable pub chunk_hash : Stamp → List ObsRow → Option ℕ
chunk_hash k [] = none
chunk_hash k (r ∷ chunk) = elim (chunk_hash k chunk) [
  | some h ↦ some h
  | none ↦ if stamp_eq r.stamp k then some r.payload_hash else none
]

-- The chunk's keys without repetition: the keys of that dict.
unfoldable pub chunk_keys : List ObsRow → List Stamp
chunk_keys chunk = union [] (stamps chunk)

-- What the readback finds at one conflicting key, against the new hash.
unfoldable pub check_key : ℕ → Stamp → Option ℕ → Option ℕ → Action Session (Unit {0})
check_key sid k existing none = raise key_error
check_key sid k none (some ph) = raise (observation_conflict sid k.ts k.as_of none ph)
check_key sid k (some h) (some ph) =
    if h == ph then pure tt else raise (observation_conflict sid k.ts k.as_of (some h) ph)

-- The loop over the conflicting keys, in the order of the chunk; Python's set has no fixed order, so
-- that the key of an error may be another one.
unfoldable pub check_keys : ℕ → List ObsRow → List Stamp → Action Session (Unit {0})
check_keys sid chunk [] = pure tt
check_keys sid chunk (k ∷ keys) = do
  existing ← (λ s. done (select_hash sid k s.rows) s)
  check_key sid k existing (chunk_hash k chunk)
  check_keys sid chunk keys

-- Whether the table takes the values of every row, in conflict or not.
unfoldable pub accepted : Env → List ObservationIn → Bool
accepted env [] = true
accepted env (o ∷ os) = env.accepts o && accepted env os

-- Whether the foreign keys allow the rows inserted; a row in conflict is not checked.
unfoldable pub permitted : Env → ℕ → ℕ → List Stamp → Bool
permitted env sid run [] = true
permitted env sid run (k ∷ keys) = env.refers sid run

abbrev pub insertable : Env → ℕ → ℕ → List ObservationIn → List ObsRow → List ObsRow → Bool
insertable env sid run chunk rows old =
    accepted env chunk && permitted env sid run (insert_rows rows old).1

abbrev pub chunk_size : ℕ
chunk_size = 500

module _ (env : Env) (c : Context) (run sid : ℕ) where
  -- INSERT … RETURNING of the rows of a chunk, as the set of the keys that it returned, or the
  -- database's error, which leaves none of its rows.
  unfoldable pub insert_chunk : List ObservationIn → List ObsRow → Action Session (List Stamp)
  insert_chunk chunk rows s =
      if insertable env sid run chunk rows s.rows
      then done (insert_rows rows s.rows).1 (record s { rows = (insert_rows rows s.rows).0 })
      else raised sqlalchemy_error s

  -- `_write_chunk`: the keys inserted, and those found unchanged.
  unfoldable pub write_chunk : List ObservationIn → Action Session (List Stamp × List Stamp)
  write_chunk chunk = do
    rows ← lift (rows_of env sid (audit_cols c) run chunk)
    inserted_keys ← insert_chunk chunk rows
    let conflicted = difference (chunk_keys rows) inserted_keys
    check_keys sid rows conflicted
    pure (inserted_keys, conflicted)

  -- Phase 2, with the two sets gathered so far.
  unfoldable pub write_chunks :
      List (List ObservationIn) → List Stamp → List Stamp → Action Session (List Stamp × List Stamp)
  write_chunks [] ins unch = pure (ins, unch)
  write_chunks (chunk ∷ rest) ins unch = do
    (inserted_keys, unchanged_keys) ← write_chunk chunk
    write_chunks rest (union ins inserted_keys) (union unch unchanged_keys)

  -- `min` and `max` of a non-empty list by the instant: the first of the least, of the greatest.
  abbrev least : (ObservationIn → Datetime) → Datetime → List ObservationIn → Datetime
  least f d [] = d
  least f d (o ∷ os) = least f (if ltb (f o).instant d.instant then f o else d) os

  abbrev greatest : (ObservationIn → Datetime) → Datetime → List ObservationIn → Datetime
  greatest f d [] = d
  greatest f d (o ∷ os) = greatest f (if ltb d.instant (f o).instant then f o else d) os

  -- `event_metadata`. A digest stands as its number.
  unfoldable pub event_metadata : ℕ → ObservationIn → List ObservationIn → ℕ → ℕ → ℕ → Fields
  event_metadata attempted first rest digest ins unch =
      field "batch_size" (num (length (first ∷ rest))) (
        field "attempted" (num attempted) (
          field "series_id" (num sid) (
            field "ts_min" (str (env.isoformat (least (λ o. o.ts) first.ts rest))) (
              field "ts_max" (str (env.isoformat (greatest (λ o. o.ts) first.ts rest))) (
                field "as_of_min" (str (env.isoformat (least (λ o. o.as_of) first.as_of rest))) (
                  field "as_of_max" (str (env.isoformat (greatest (λ o. o.as_of) first.as_of rest)))
                    (field "batch_payload_hash" (num digest) (
                      field "inserted" (num ins) (
                        field "unchanged" (num unch)
                          (field "ingestion_run_id" (num run) duplicates))))))))))
    where
      duplicates : Fields
      duplicates =
          if ltb 0 (attempted - length (first ∷ rest))
          then field "duplicate_count" (num (attempted - length (first ∷ rest))) end
          else end

  -- The audit rows of the keys, with the action of each; the code ends with an error at a key that
  -- has none.
  unfoldable pub key_rows :
      ℕ → ℕ → Seen → List Stamp → List Stamp → List ObservationIn → Action Session (List BatchKey)
  key_rows event_id occurred_at seen ins unch [] = pure []
  key_rows event_id occurred_at seen ins unch (o ∷ os) = do
    ph ← (elim (seen_hash (stamp_of o) seen) [ some h ↦ pure h | none ↦ raise key_error ])
    action ←
        (if mem (stamp_of o) ins
          then pure inserted
          else if mem (stamp_of o) unch
          then pure unchanged
          else raise (observation_conflict sid (stamp_of o).ts (stamp_of o).as_of none ph))
    rest ← key_rows event_id occurred_at seen ins unch os
    pure (
        record {
          event_id = event_id;
          occurred_at = occurred_at;
          series_id = sid;
          stamp = stamp_of o;
          payload_hash = ph;
          action = action;
        }
        ∷ rest)

  unfoldable pub batch_event : Fields → Event
  batch_event metadata = event_of c.actor (record {
    operation = "observation.write_batch";
    target_schema = "ts";
    target_table = "observation";
    target_pk = field "series_id" (num sid) end;
    before = none;
    after = none;
    metadata = metadata;
    ingestion_run_id = some run;
  })

  -- `_emit_write_batch_audit` of the non-empty batch `first ∷ rest`; `occurred_at` is the clock.
  unfoldable pub emit_write_batch_audit :
      ℕ
      → ℕ
      → ObservationIn
      → List ObservationIn
      → Seen
      → List Stamp
      → List Stamp
      → Action Session (Unit {0})
  emit_write_batch_audit occurred_at attempted first rest seen ins unch = do
    digest ← lift (compute_batch_hash env sid (first ∷ rest))
    let event = batch_event (event_metadata attempted first rest digest (length ins) (length unch))
    event_id ← (λ s. done (length s.events) (record s { events = s.events ++ event ∷ [] }))
    keys ← key_rows event_id occurred_at seen ins unch (first ∷ rest)
    (λ s. done tt (record s { batch_keys = s.batch_keys ++ keys }))

  -- Phase 1 and 2 and the audit, of the deduplicated batch.
  unfoldable pub write_deduped : ℕ → ℕ → Seen → List ObservationIn → Action Session WriteCount
  write_deduped occurred_at attempted seen [] =
      pure (record { attempted = attempted; inserted = 0; updated = 0; unchanged = 0 })
  write_deduped occurred_at attempted seen (first ∷ rest) = do
    (ins, unch) ← write_chunks (chunks (length (first ∷ rest)) chunk_size (first ∷ rest)) [] []
    emit_write_batch_audit occurred_at attempted first rest seen ins unch
    pure (record {
      attempted = attempted;
      inserted = length ins;
      updated = 0;
      unchanged = length unch;
    })

  unfoldable pub write : ℕ → List ObservationIn → Action Session WriteCount
  write occurred_at observations = do
    assert_actor_or_strict_raise c
    lift (validate_rows 0 observations)
    (seen, deduped) ← lift (dedup env sid observations [] [])
    write_deduped occurred_at (length observations) seen deduped
