-- ===== src/Timeseries/Writer/Emit.antt =====
-- The audit of a batch never fails once its keys are sorted into inserted and unchanged.
use aslan_core.Base.{
  ℕ, suc, true, ◌||◌, some, List, [], ◌∷◌, ◌++◌, if◌then◌else◌, map, ◌≡◌, refl, ap, arith,
  Bool-cases, inl, inr, length, All,
}
use aslan_core.Result.{ok}
use aslan_core.Action.{done}
use aslan_core.Audit.Recorder.{AuditCols}
use aslan_core.Audit.Context.{Context}
use aslan_core.Timeseries.Types.{ObservationIn, Stamp, stamp_of, Env}
use aslan_core.Timeseries.BatchHash.{
  Item, items_of, batch_bytes, compute_batch_hash, sort_items, all_bytes,
}
use aslan_core.Timeseries.Bytes.{big_endian}
use aslan_core.Timeseries.Table.{ObsRow, select_hash, mem, stamps}
use aslan_core.Timeseries.Table.Laws.{OfSeries, at_of_series, stamp_eq→eq}
use aslan_core.Timeseries.Batch.{Seen, seen_hash, rows_of, row_of}
use aslan_core.Timeseries.Batch.Dedup.{Hashed, keys_of}
use aslan_core.Timeseries.Writer.{
  Session, BatchKey, KeyAction, inserted, unchanged, key_rows, batch_event, event_metadata,
  emit_write_batch_audit,
}

module _ (env : Env) (sid : ℕ) (seen : Seen) where
  items_of_done :
      (ds : List ObservationIn)
      → All (Hashed env sid seen) ds
      → (items : List Item) × (items_of env ds ≡ ok items)
  unfolding items_of
  items_of_done [] h = ([], refl)
  items_of_done (o ∷ ds) h =
      let (items, e) = items_of_done ds h.1 in
      (record { ts = o.ts; as_of = o.as_of; hash = h.0.0 } ∷ items, rw (h.0.1, e) refl)

  hash_done :
      (ds : List ObservationIn)
      → All (Hashed env sid seen) ds
      → (digest : ℕ) × (compute_batch_hash env sid ds ≡ ok digest)
  unfolding compute_batch_hash batch_bytes
  hash_done ds h =
      let (items, e) = items_of_done ds h in
      (env.sha256 (big_endian 8 sid ++ all_bytes env (sort_items items)), rw e refl)

  -- The rows of a hashed batch bind the hashes of `seen`.
  pub rows_of_done :
      (cols : AuditCols) (run : ℕ) (ds : List ObservationIn)
      → All (Hashed env sid seen) ds
      → (rows : List ObsRow) × (rows_of env sid cols run ds ≡ ok rows)
        × OfSeries sid rows
        × (stamps rows ≡ keys_of ds)
        × ((k : Stamp) (h : ℕ) → select_hash sid k rows ≡ some h → seen_hash k seen ≡ some h)
        × (length rows ≡ length ds)
  unfolding rows_of select_hash
  rows_of_done cols run [] h = ([], refl, tt, refl, (λ k g e. absurd (cc)), refl)
  rows_of_done cols run (o ∷ ds) h =
      let (rows, e, series, keys, hashes, len) = rows_of_done cols run ds h.1 in
      (
        row_of env sid cols run o h.0.0 ∷ rows,
        rw (h.0.1, e) refl,
        (refl, series),
        ap (λ ks. stamp_of o ∷ ks) keys,
        (λ k g found. ground (
          arith,
          at_of_series (row_of env sid cols run o h.0.0) sid k refl,
          stamp_eq→eq (stamp_of o) k,
          h.0.2,
          hashes k g,
        )),
        ap suc len,
      )

-- An audit row under the event: the key of this series, its hash in the batch, and `inserted` for
-- the keys that were, `unchanged` for the others.
abbrev pub IsAudited : ℕ → Seen → List Stamp → ℕ → ℕ → BatchKey → Type 0
IsAudited sid seen ins event_id occurred_at b =
    (b.event_id ≡ event_id)
    × (b.occurred_at ≡ occurred_at)
    × (b.series_id ≡ sid)
    × (seen_hash b.stamp seen ≡ some b.payload_hash)
    × (b.action ≡ (if mem b.stamp ins then inserted else unchanged))

module _ (env : Env) (c : Context) (run sid : ℕ) (seen : Seen) (ins unch : List Stamp) where
  -- Each row has an action.
  abbrev pub Sorted : ObservationIn → Type 0
  Sorted o = mem (stamp_of o) ins || mem (stamp_of o) unch ≡ true

  key_rows_done :
      (event_id occurred_at : ℕ) (ds : List ObservationIn) (s : Session)
      → All (Hashed env sid seen) ds
      → All Sorted ds
      → (keys : List BatchKey) × (key_rows env c run sid event_id occurred_at seen ins unch ds s
          ≡ done keys s)
        × (map (λ (b : BatchKey). b.stamp) keys ≡ keys_of ds)
        × (length keys ≡ length ds)
        × All (IsAudited sid seen ins event_id occurred_at) keys
  unfolding key_rows
  key_rows_done event_id occurred_at [] s h m = ([], refl, refl, refl, tt)
  key_rows_done event_id occurred_at (o ∷ ds) s h m =
      let (keys, e, st, len, ids) = key_rows_done event_id occurred_at ds s h.1 m.1 in
      let act : KeyAction = (if mem (stamp_of o) ins then inserted else unchanged) in
      (
        record {
          event_id = event_id;
          occurred_at = occurred_at;
          series_id = sid;
          stamp = stamp_of o;
          payload_hash = h.0.0;
          action = act;
        }
            ∷ keys,
        elim (Bool-cases (mem (stamp_of o) ins)) [
          | inl i ↦ rw (h.0.2, i, e) refl
          | inr n ↦ rw (h.0.2, n, rw n at (m.0), e) refl
        ],
        ap (λ ks. stamp_of o ∷ ks) st,
        ap suc len,
        ((refl, refl, refl, h.0.2, refl), ids),
      )

  -- The audit of a non-empty batch: one event, and one row for each key, under the event's id.
  pub emit_done :
      (occurred_at attempted : ℕ) (first : ObservationIn) (rest : List ObservationIn) (s : Session)
      → All (Hashed env sid seen) (first ∷ rest)
      → All Sorted (first ∷ rest)
      → (digest : ℕ) × (keys : List BatchKey) × (emit_write_batch_audit env c run sid occurred_at
            attempted first rest seen ins unch s
          ≡ done tt (record s {
            events =
                s.events
                ++ batch_event env c run sid (
                    event_metadata env c run sid attempted first rest digest
                      (length ins)
                      (length unch))
                  ∷ [];
            batch_keys = s.batch_keys ++ keys;
          }))
        × (map (λ (b : BatchKey). b.stamp) keys ≡ keys_of (first ∷ rest))
        × (length keys ≡ length (first ∷ rest))
        × All (IsAudited sid seen ins (length s.events) occurred_at) keys
  unfolding emit_write_batch_audit
  emit_done occurred_at attempted first rest s h m =
      let (digest, e) = hash_done env sid seen (first ∷ rest) h in
      let s1 : Session = record s {
        events =
            s.events
            ++ batch_event env c run sid (
                event_metadata env c run sid attempted first rest digest (length ins) (length unch))
              ∷ [];
      } in
      let (keys, r, st, len, ids) =
        key_rows_done (length s.events) occurred_at (first ∷ rest) s1 h m in
      (digest, keys, rw (e, r) refl, st, len, ids)
