-- ===== src/Timeseries/Writer/Correct.antt =====
-- `write` as a whole: what it leaves when it returns, and when it returns.
use mathlib.Core.Path.{subst, subst₂}
use aslan_core.Base.{
  ℕ, ◌+◌, ◌≤◌, true, false, is_some, if◌then◌else◌, some, List, [], ◌∷◌, ◌++◌, map, ◌≡◌, refl, sym,
  ap, ◌∙◌, arith, Option-cases, inl, inr, length, All, length-map,
}
use aslan_core.Result.{ok_inj, ok}
use aslan_core.Action.{done, bind-eq-done}
use aslan_core.Audit.Recorder.{audit_cols}
use aslan_core.Audit.Context.{Context}
use aslan_core.Audit.Attribution.{refused}
use aslan_core.Timeseries.Payload.{payload_hash}
use aslan_core.Timeseries.Types.{ObservationIn, Stamp, stamp_of, Env, WriteCount}
use aslan_core.Timeseries.Table.{ObsRow, select_hash, insert_rows, mem, stamps}
use aslan_core.Timeseries.Table.Laws.{
  Distinct, OfSeries, mem-inserted, select-insert_rows, insert_rows-append,
}
use aslan_core.Timeseries.Table.Counts.{select-stamps}
use aslan_core.Timeseries.Batch.{Seen, seen_hash, rows_of, chunks, validate_rows, dedup}
use aslan_core.Timeseries.Batch.Keys.{dedup-keys}
use aslan_core.Timeseries.Batch.Dedup.{Hashed, IsDeduped, keys_of, dedup_lem}
use aslan_core.Timeseries.Writer.{
  Session, BatchKey, inserted, unchanged, accepted, permitted, insertable, write, write_deduped,
  write_chunks, chunk_size,
}
use aslan_core.Timeseries.Writer.Chunk.{Agree}
use aslan_core.Timeseries.Writer.Split.{concat, concat-chunks}
use aslan_core.Timeseries.Writer.Chunks.{write_chunks_inv}
use aslan_core.Timeseries.Writer.Emit.{IsAudited, rows_of_done}
use aslan_core.Base.Sort.{All_map}
use aslan_core.Timeseries.Writer.Total.{
  IsWritten, Insertable, NoConflict, nothing_seen, write_parts, write_done,
}

-- The payload hash of the observation is stored at its key.
abbrev pub Stored : Env → ℕ → List ObsRow → ObservationIn → Type 0
Stored env sid rows o =
    (h : ℕ) × (payload_hash env o ≡ ok h) × (select_hash sid (stamp_of o) rows ≡ some h)

-- An audit row of the write: of the batch's event, at the clock's time, with the hash now stored at
-- its key, and `unchanged` where the key was there before.
abbrev pub AuditRow : ℕ → ℕ → Session → Session → BatchKey → Type 0
AuditRow sid t s s' b =
    (b.event_id ≡ length s.events)
    × (b.occurred_at ≡ t)
    × (b.series_id ≡ sid)
    × (select_hash sid b.stamp s'.rows ≡ some b.payload_hash)
    × (b.action ≡ (if is_some (select_hash sid b.stamp s.rows) then unchanged else inserted))

module _ (env : Env) (c : Context) (run sid : ℕ) where
  write_deduped_inv :
      (t attempted : ℕ) (seen : Seen) (ds : List ObservationIn) (rows : List ObsRow)
      (s s' : Session) (n : WriteCount)
      → IsDeduped env sid seen ds
      → rows_of env sid (audit_cols c) run ds ≡ ok rows
      → stamps rows ≡ keys_of ds
      → write_deduped env c run sid t attempted seen ds s ≡ done n s'
      → (insertable env sid run ds rows s.rows ≡ true) × Agree sid s.rows rows
  unfolding write_deduped
  write_deduped_inv t attempted seen [] rows s s' n inv e keys ran =
      let none_left : [] ≡ rows = ok_inj (unfold rows_of in e) in
      rw (← none_left) (
        (unfold accepted permitted insert_rows in refl),
        unfold select_hash in λ k h g p q. absurd (cc),
      )
  write_deduped_inv t attempted seen (o ∷ os) rows s s' n inv e keys ran =
      let ds = o ∷ os in
      let whole : concat (chunks (length ds) chunk_size ds) ≡ ds =
        concat-chunks (length ds) 499 ds (omega arith) in
      let distinct : Distinct (stamps rows) = rw keys inv.distinct in
      let (r, s1, chunked, _) =
        bind-eq-done (write_chunks env c run sid (chunks (length ds) chunk_size ds) [] [] s) _
          ran in
      let (takes, agree) =
        write_chunks_inv env c run sid (chunks (length ds) chunk_size ds) rows [] [] s s1 r
          (rw whole e) distinct chunked in
      (rw whole at takes, agree)

  -- A `write` that returns met no other hash.
  write_inv :
      (t : ℕ) (obs : List ObservationIn) (s s' : Session) (n : WriteCount)
      → write env c run sid t obs s ≡ done n s'
      → (seen : Seen) × (ds : List ObservationIn) × (refused c ≡ false)
        × (validate_rows 0 obs ≡ ok tt)
        × (dedup env sid obs [] [] ≡ ok (seen, ds))
        × NoConflict sid seen s.rows
        × Insertable env c run sid ds s.rows
  write_inv t obs s s' n e =
      let (fine, valid, seen, ds, deduped, ran) = (write_parts env c run sid) t obs s s' n e in
      let (inv, _, _, _) = dedup_lem env sid obs [] [] (nothing_seen env c run sid) deduped in
      let (rows, bound, series, keys, hashes, _) =
        rows_of_done env sid seen (audit_cols c) run ds inv.hashed in
      let (takes, agree) =
        write_deduped_inv t (length obs) seen ds rows s s' n inv bound keys ran in
      (
        seen,
        ds,
        fine,
        valid,
        deduped,
        (λ k h g p q. elim (Option-cases (select_hash sid k rows)) [
          | inr (x, there) ↦ agree k h g p (ground (arith, hashes k x))
          | inl absent ↦
              absurd
                (ground (arith, select-stamps sid k rows series, inv.covered k, ap (mem k) keys))
        ]),
        (λ rows' bound'.
            subst (λ rs. insertable env sid run ds rs s.rows ≡ true) (ok_inj (sym bound ∙ bound'))
              takes),
      )

  -- All that a `write` that returns says of itself.
  pub write_whole :
      (t : ℕ) (obs : List ObservationIn) (s s' : Session) (n : WriteCount)
      → write env c run sid t obs s ≡ done n s'
      → (seen : Seen) × (ds : List ObservationIn) × (rows : List ObsRow) × (validate_rows 0 obs
          ≡ ok tt)
        × (dedup env sid obs [] [] ≡ ok (seen, ds))
        × NoConflict sid seen s.rows
        × Insertable env c run sid ds s.rows
        × IsWritten sid t (length obs) seen rows s s' n
        × OfSeries sid rows
        × (stamps rows ≡ keys_of ds)
        × (rows_of env sid (audit_cols c) run ds ≡ ok rows)
  write_whole t obs s s' n e =
      let (seen, ds, fine, valid, deduped, fits, takes) = write_inv t obs s s' n e in
      let (n', s2, rows, ran, written, series, keys, bound) =
        (write_done env c run sid) t obs seen ds s fine valid deduped fits takes in
      let same_state : s2 ≡ s' = cc (ran, e) in
      let same_count : n' ≡ n = cc (ran, e) in
      (
        seen,
        ds,
        rows,
        valid,
        deduped,
        fits,
        takes,
        subst₂ (IsWritten sid t (length obs) seen rows s) same_state same_count written,
        series,
        keys,
        bound,
      )

  -- A hash in `seen` is stored afterwards.
  pub stored_of_seen :
      (seen : Seen) (ds : List ObservationIn) (rows old now : List ObsRow)
      → IsDeduped env sid seen ds
      → rows_of env sid (audit_cols c) run ds ≡ ok rows
      → NoConflict sid seen old
      → now ≡ (insert_rows rows old).0
      → (k : Stamp) (h : ℕ) → seen_hash k seen ≡ some h
      → select_hash sid k now ≡ some h
  stored_of_seen seen ds rows old now inv bound fits e k h there =
      let (rows', bound', series, keys, hashes, _) =
        rows_of_done env sid seen (audit_cols c) run ds inv.hashed in
      let same : rows' ≡ rows = ok_inj (sym bound' ∙ bound) in
      elim (Option-cases (select_hash sid k rows')) [
        | inr (x, found) ↦ elim (Option-cases (select_hash sid k old)) [
          | inl absent ↦ rw e (ground (arith, select-insert_rows sid k rows old, hashes k x, same))
          | inr (g, before) ↦ rw e (ground (arith, select-insert_rows sid k rows old, fits k g h))
        ]
        | inl absent ↦
            absurd
              (ground (arith, select-stamps sid k rows' series, inv.covered k, ap (mem k) keys))
      ]

  audit_row :
      (seen : Seen) (rows : List ObsRow) (s s' : Session) (t : ℕ)
      → OfSeries sid rows
      → ((k : Stamp) (h : ℕ) → seen_hash k seen ≡ some h → mem k (stamps rows) ≡ true)
      → ((k : Stamp) (h : ℕ) → seen_hash k seen ≡ some h → select_hash sid k s'.rows ≡ some h)
      → (b : BatchKey) → IsAudited sid seen (insert_rows rows s.rows).1 (length s.events) t b
      → AuditRow sid t s s' b
  audit_row seen rows s s' t series bound stored b (id, at, of_sid, hash, act) = (
    id,
    at,
    of_sid,
    stored b.stamp b.payload_hash hash,
    ground (
      arith,
      act,
      mem-inserted sid b.stamp rows s.rows series,
      bound b.stamp b.payload_hash hash,
    ),
  )

  All-Stored :
      (seen : Seen) (now : List ObsRow) (obs : List ObservationIn)
      → ((k : Stamp) (h : ℕ) → seen_hash k seen ≡ some h → select_hash sid k now ≡ some h)
      → All (Hashed env sid seen) obs
      → All (Stored env sid now) obs
  All-Stored seen now [] f h = tt
  All-Stored seen now (o ∷ obs) f h =
      ((h.0.0, h.0.1, f (stamp_of o) h.0.0 h.0.2), All-Stored seen now obs f h.1)

  -- When `write` returns, every observation of the batch is stored at its key with its payload hash.
  -- The table has only grown, by rows of this series, and their number is the count `inserted`;
  -- nothing was updated. `attempted` is the size of the batch. The audit gains rows whose keys are
  -- exactly the keys of the batch, none of them twice, and there are as many as were inserted or
  -- found unchanged. Each has the id of the batch's event, the clock's time, the series and the hash
  -- that is now stored at its key, and says `unchanged` where that key was stored before the call and
  -- `inserted` where it was not.
  pub write_stores :
      (t : ℕ) (obs : List ObservationIn) (s s' : Session) (n : WriteCount)
      → write env c run sid t obs s ≡ done n s'
      → All (Stored env sid s'.rows) obs
        × ((new : List ObsRow) × (s'.rows ≡ s.rows ++ new)
            × OfSeries sid new
            × (length new ≡ n.inserted))
        × (n.attempted ≡ length obs)
        × (n.updated ≡ 0)
        × (n.inserted + n.unchanged ≤ n.attempted)
        × ((keys : List BatchKey) × (s'.batch_keys ≡ s.batch_keys ++ keys)
            × (length keys ≡ n.inserted + n.unchanged)
            × Distinct (map (λ (b : BatchKey). b.stamp) keys)
            × ((k : Stamp)
                → mem k (map (λ (b : BatchKey). b.stamp) keys) ≡ mem k (map stamp_of obs))
            × All (AuditRow sid t s s') keys)
  write_stores t obs s s' n e =
      let (seen, ds, rows, valid, deduped, fits, _, w, series, keys, bound) =
        write_whole t obs s s' n e in
      let (inv, _, all, len) = dedup_lem env sid obs [] [] (nothing_seen env c run sid) deduped in
      let (new, grown, new_len, of_new) = insert_rows-append rows s.rows in
      let stored = stored_of_seen seen ds rows s.rows s'.rows inv bound fits w.table in
      let inserts : (k : Stamp) (h : ℕ) → seen_hash k seen ≡ some h → mem k (stamps rows) ≡ true =
        λ k h there. ground (arith, inv.covered k, ap (mem k) keys) in
      let batch : length rows ≤ length obs =
        omega (arith, ap length keys, length-map rows (λ r. r.stamp), length-map ds stamp_of) in
      (
        All-Stored seen s'.rows obs stored all,
        (
          new,
          w.table ∙ grown,
          of_new (λ r. r.series_id ≡ sid) series,
          omega (arith, w.inserted_new),
        ),
        w.attempted_all,
        w.updated_none,
        omega (arith, w.each_once, w.attempted_all),
        (
          w.keys,
          w.keys_append,
          omega (
            arith,
            w.each_once,
            ap length w.one_per_key,
            length-map w.keys (λ (b : BatchKey). b.stamp),
            length-map rows (λ r. r.stamp),
          ),
          rw (w.one_per_key, keys) inv.distinct,
          (λ k.
              ap (mem k) (w.one_per_key ∙ keys)
              ∙ dedup-keys env sid obs seen ds (nothing_seen env c run sid) deduped k),
          All_map (IsAudited sid seen (insert_rows rows s.rows).1 (length s.events) t)
              (AuditRow sid t s s') w.keys (audit_row seen rows s s' t series inserts stored)
              w.keys_audited,
        ),
      )
