-- ===== src/Timeseries/Writer/Total.antt =====
-- `write` as a whole, run forward: it returns, and what it leaves.
use mathlib.Core.List.{append-nil}
use aslan_core.Base.{
  ℕ, ◌+◌, true, false, some, List, [], ◌∷◌, ◌++◌, map, ◌≡◌, refl, sym, ◌∙◌, arith, length, All,
}
use aslan_core.Result.{ok_inj, ok}
use aslan_core.Action.{done, lift-eq-done}
use aslan_core.Audit.Recorder.{audit_cols}
use aslan_core.Audit.Context.{Context}
use aslan_core.Audit.Attribution.{refused, assert_actor_lem, assert_actor-eq-done}
use aslan_core.Timeseries.Types.{ObservationIn, Stamp, stamp_of, Env, WriteCount}
use aslan_core.Timeseries.Table.{ObsRow, select_hash, insert_rows, mem, difference, stamps}
use aslan_core.Timeseries.Table.Laws.{Distinct, OfSeries, mem-difference, stamp_eq_refl}
use aslan_core.Timeseries.Table.Counts.{inserted_and_conflicted}
use aslan_core.Timeseries.Batch.{Seen, seen_hash, rows_of, chunks, validate_rows, dedup}
use aslan_core.Timeseries.Batch.Dedup.{IsDeduped, keys_of, dedup_lem}
use aslan_core.Timeseries.Writer.{
  batch_event, event_metadata, Session, BatchKey, insertable, write, write_deduped, chunk_size,
}
use aslan_core.Timeseries.Writer.Chunk.{Agree}
use aslan_core.Timeseries.Writer.Split.{concat, concat-chunks}
use aslan_core.Timeseries.Writer.Chunks.{write_chunks_done}
use aslan_core.Timeseries.Writer.Emit.{IsAudited, rows_of_done, emit_done, Sorted}

-- The session after a batch whose INSERT binds `rows`, and the count returned.
pub record IsWritten (sid t attempted : ℕ) (seen : Seen) (rows : List ObsRow) (s s' : Session)
    (n : WriteCount) : Type 0 where
  pub table : s'.rows ≡ (insert_rows rows s.rows).0
  pub attempted_all : n.attempted ≡ attempted
  pub inserted_new : n.inserted ≡ length (insert_rows rows s.rows).1
  pub updated_none : n.updated ≡ 0
  pub each_once : n.inserted + n.unchanged ≡ length rows
  pub keys : List BatchKey
  pub keys_append : s'.batch_keys ≡ s.batch_keys ++ keys
  pub keys_audited : All (IsAudited sid seen (insert_rows rows s.rows).1 (length s.events) t) keys
  pub one_per_key : map (λ (b : BatchKey). b.stamp) keys ≡ stamps rows

-- No stored hash disagrees with the batch's.
abbrev pub NoConflict : ℕ → Seen → List ObsRow → Type 0
NoConflict sid seen old =
    (k : Stamp) (h g : ℕ) → select_hash sid k old ≡ some h → seen_hash k seen ≡ some g → h ≡ g

-- The database takes the rows that the batch binds.
abbrev pub Insertable : Env → Context → ℕ → ℕ → List ObservationIn → List ObsRow → Type 0
Insertable env c run sid ds old =
    (rows : List ObsRow)
    → rows_of env sid (audit_cols c) run ds ≡ ok rows
    → insertable env sid run ds rows old ≡ true

module _ (env : Env) (c : Context) (run sid : ℕ) where
  -- Every key of the rows is in one of the two sets.
  pub Sorted-all :
      (seen : Seen) (rows old : List ObsRow) (ds : List ObservationIn)
      → OfSeries sid rows
      → ((k : Stamp) → mem k (keys_of ds) ≡ true → mem k (stamps rows) ≡ true)
      → All
          (Sorted env c run sid seen
            (insert_rows rows old).1
            (difference (stamps rows) (insert_rows rows old).1))
          ds
  unfolding mem
  Sorted-all seen rows old [] h sub = tt
  Sorted-all seen rows old (o ∷ ds) h sub = (
    ground (
      arith,
      sub (stamp_of o) (rw stamp_eq_refl),
      mem-difference (stamp_of o) (stamps rows) (insert_rows rows old).1,
    ),
    Sorted-all seen rows old ds h (λ k m. sub k (ground arith)),
  )

  pub write_deduped_done :
      (t attempted : ℕ) (seen : Seen) (ds : List ObservationIn) (rows : List ObsRow) (s : Session)
      → IsDeduped env sid seen ds
      → rows_of env sid (audit_cols c) run ds ≡ ok rows
      → OfSeries sid rows
      → stamps rows ≡ keys_of ds
      → Agree sid s.rows rows
      → insertable env sid run ds rows s.rows ≡ true
      → (n : WriteCount) × (s' : Session) × (write_deduped env c run sid t attempted seen ds s
          ≡ done n s')
        × IsWritten sid t attempted seen rows s s' n
  unfolding write_deduped
  write_deduped_done t attempted seen [] rows s inv e series keys agree takes =
      let none_left : [] ≡ rows = ok_inj (unfold rows_of in e) in
      (
        record { attempted = attempted; inserted = 0; updated = 0; unchanged = 0 },
        s,
        refl,
        rw (← none_left) (
            unfold insert_rows in
            record {
              table = refl;
              attempted_all = refl;
              inserted_new = refl;
              updated_none = refl;
              each_once = omega arith;
              keys = [];
              keys_append = sym (append-nil s.batch_keys);
              keys_audited = tt;
              one_per_key = refl;
            }),
      )
  write_deduped_done t attempted seen (o ∷ os) rows s inv e series keys agree takes =
      let ds = o ∷ os in
      let ins = (insert_rows rows s.rows).1 in
      let unch = difference (stamps rows) ins in
      let s1 : Session = record s { rows = (insert_rows rows s.rows).0 } in
      let whole : concat (chunks (length ds) chunk_size ds) ≡ ds =
        concat-chunks (length ds) 499 ds (omega arith) in
      let distinct : Distinct (stamps rows) = rw keys inv.distinct in
      let chunked =
        write_chunks_done env c run sid (chunks (length ds) chunk_size ds) rows [] [] s (rw whole e)
          distinct (unfold mem in λ k m. refl) (unfold mem in λ k m. refl) agree (rw whole takes) in
      let sorted = Sorted-all seen rows s.rows ds series (λ k m. rw keys m) in
      let (digest, batch_keys, emitted, st, len, ids) =
        emit_done env c run sid seen ins unch t attempted o os s1 inv.hashed sorted in
      (
        record {
          attempted = attempted;
          inserted = length ins;
          updated = 0;
          unchanged = length unch;
        },
        record s1 {
          events =
              s.events
              ++ batch_event env c run sid
                  (event_metadata env c run sid attempted o os digest (length ins) (length unch))
                ∷ [];
          batch_keys = s.batch_keys ++ batch_keys;
        },
        rw (chunked, emitted) refl,
        record {
          table = refl;
          attempted_all = refl;
          inserted_new = refl;
          updated_none = refl;
          each_once = inserted_and_conflicted sid rows s.rows series distinct;
          keys = batch_keys;
          keys_append = refl;
          keys_audited = ids;
          one_per_key = st ∙ sym keys;
        },
      )

  pub nothing_seen : IsDeduped env sid [] []
  nothing_seen = unfold seen_hash mem in record { distinct = tt; covered = λ k. refl; hashed = tt }

  -- The parts of a `write` that returns.
  pub write_parts :
      (t : ℕ) (obs : List ObservationIn) (s s' : Session) (n : WriteCount)
      → write env c run sid t obs s ≡ done n s'
      → (refused c ≡ false)
        × (validate_rows 0 obs ≡ ok tt)
        × (seen : Seen) × (ds : List ObservationIn) × (dedup env sid obs [] [] ≡ ok (seen, ds))
        × (write_deduped env c run sid t (length obs) seen ds s ≡ done n s')
  unfolding write
  write_parts t obs s s' n e =
      let (fine, e1) = assert_actor-eq-done c s _ e in
      let (_, valid, e2) = lift-eq-done (validate_rows 0 obs) s _ e1 in
      let ((seen, ds), deduped, e3) = lift-eq-done (dedup env sid obs [] []) s _ e2 in
      (fine, valid, seen, ds, deduped, e3)

  -- `write` returns a count when nothing is wrong: there is somebody to name, the rows are valid, the
  -- batch does not contradict itself, no stored hash disagrees with it, and the database takes its
  -- rows.
  pub write_done :
      (t : ℕ) (obs : List ObservationIn) (seen : Seen) (ds : List ObservationIn) (s : Session)
      → refused c ≡ false
      → validate_rows 0 obs ≡ ok tt
      → dedup env sid obs [] [] ≡ ok (seen, ds)
      → NoConflict sid seen s.rows
      → Insertable env c run sid ds s.rows
      → (n : WriteCount) × (s' : Session) × (rows : List ObsRow) × (write env c run sid t obs s
          ≡ done n s')
        × IsWritten sid t (length obs) seen rows s s' n
        × OfSeries sid rows
        × (stamps rows ≡ keys_of ds)
        × (rows_of env sid (audit_cols c) run ds ≡ ok rows)
  unfolding write
  write_done t obs seen ds s fine valid deduped fits takes =
      let (inv, _, _, _) = dedup_lem env sid obs [] [] nothing_seen deduped in
      let (rows, e, series, keys, hashes, _) =
        rows_of_done env sid seen (audit_cols c) run ds inv.hashed in
      let agree : Agree sid s.rows rows = λ k h g p q. fits k h g p (hashes k g q) in
      let (n, s', ran, written) =
        write_deduped_done t (length obs) seen ds rows s inv e series keys agree (takes rows e) in
      (n, s', rows, rw (assert_actor_lem, fine, valid, deduped) ran, written, series, keys, e)
