-- ===== src/Timeseries/Writer/History.antt =====
-- What is stored stays: a batch that contradicts it is refused, a batch that repeats it changes nothing.
use aslan_core.Base.{
  ℕ, ◌+◌, true, false, some, List, [], ◌∷◌, ◌++◌, is_some, ◌≡◌, ◌≢◌, ◌↔◌, ◌⊎◌, refl, ap, ◌∙◌, arith,
  Option-cases, inl, inr, length, All, length-map,
}
use aslan_core.Result.{ok}
use aslan_core.Action.{done, state}
use aslan_core.Audit.Recorder.{audit_cols}
use aslan_core.Audit.Context.{Context}
use aslan_core.Audit.Attribution.{refused}
use aslan_core.Timeseries.Payload.{payload_hash}
use aslan_core.Timeseries.Types.{ObservationIn, Stamp, stamp_of, Env, WriteCount}
use aslan_core.Timeseries.Table.{ObsRow, select_hash, insert_rows, mem, stamps}
use aslan_core.Timeseries.Table.Laws.{
  OfSeries, mem-inserted, insert_rows-append, select-append, stamp_eq_refl,
}
use aslan_core.Timeseries.Batch.{Seen, seen_hash, validate_rows, dedup}
use aslan_core.Timeseries.Batch.Dedup.{dedup_lem, keys_of}
use aslan_core.Timeseries.Writer.{Session, accepted, permitted, write}
use aslan_core.Timeseries.Writer.Chunk.{rows_of_lem}
use aslan_core.Timeseries.Writer.Kept.{write-Keeps}
use aslan_core.Timeseries.Writer.Total.{
  NoConflict, Insertable, write_done, write_parts, nothing_seen,
}
use aslan_core.Timeseries.Writer.Correct.{Stored, write_whole, write_stores, stored_of_seen}

-- An INSERT changes no hash that is there.
still_there :
    (sid : ℕ) (k : Stamp) (h : ℕ) (ns rows : List ObsRow)
    → select_hash sid k rows ≡ some h
    → select_hash sid k (insert_rows ns rows).0 ≡ some h
still_there sid k h ns rows e =
    let (new, grown, _, _) = insert_rows-append ns rows in
    ground (arith, ap (select_hash sid k) grown, select-append sid k rows new)

list_cases {ℓ} : {A : Type ℓ} (xs : List A) → (xs ≡ []) ⊎ ((y : A) × (ys : List A) × (xs ≡ y ∷ ys))
list_cases [] = inl refl
list_cases (x ∷ xs) = inr (x, xs, refl)

module _ (env : Env) (sid : ℕ) where
  Stored-at :
      (rows : List ObsRow) (before : List ObservationIn) (o : ObservationIn)
      (after : List ObservationIn)
      → All (Stored env sid rows) (before ++ o ∷ after)
      → Stored env sid rows o
  Stored-at rows [] o after h = h.0
  Stored-at rows (b ∷ before) o after h = Stored-at rows before o after h.1

  insert_present :
      (ns rows : List ObsRow)
      → OfSeries sid ns
      → ((k : Stamp) → mem k (stamps ns) ≡ true → is_some (select_hash sid k rows) ≡ true)
      → insert_rows ns rows ≡ (rows, [])
  unfolding insert_rows mem
  insert_present [] rows h p = refl
  insert_present (n ∷ ns) rows h p =
      let here : is_some (select_hash n.series_id n.stamp rows) ≡ true =
        ap (λ i. is_some (select_hash i n.stamp rows)) h.0 ∙ p n.stamp (rw stamp_eq_refl) in
      rw here (insert_present ns rows h.1 (λ k m. p k (ground arith)))

  -- A batch with an observation whose key is stored under another payload hash, wherever it stands in
  -- the batch: `write` does not return, in any context and for any run, and however it ends, the
  -- session has the old hash at that key.
  pub write_keeps_history :
      (c : Context) (run t : ℕ) (before : List ObservationIn) (o : ObservationIn)
      (after : List ObservationIn) (s : Session) (h g : ℕ)
      → select_hash sid (stamp_of o) s.rows ≡ some h
      → payload_hash env o ≡ ok g
      → h ≢ g
      → ((n : WriteCount) (s' : Session)
          → write env c run sid t (before ++ o ∷ after) s ≢ done n s')
        × (select_hash sid (stamp_of o) (state (write env c run sid t (before ++ o ∷ after) s)).rows
            ≡ some h)
  write_keeps_history c run t before o after s h g old new differ = (
    (λ n s' e.
        let w = write_stores env c run sid t (before ++ o ∷ after) s s' n e in
        let (x, hash, now) = Stored-at s'.rows before o after (w.0) in
        let (added, grown, _, _) = w.1 in
        differ (
          ground (
            arith,
            select-append sid (stamp_of o) s.rows added,
            ap (select_hash sid (stamp_of o)) grown,
          ))),
    write-Keeps (λ rows. select_hash sid (stamp_of o) rows ≡ some h)
        (still_there sid (stamp_of o) h) env c run sid t (before ++ o ∷ after) s old,
  )

  -- The foreign keys allow an INSERT when what they refer to is there, or all its keys are stored.
  permitted_iff :
      (run : ℕ) (rows old : List ObsRow)
      → OfSeries sid rows
      → (permitted env sid run (insert_rows rows old).1 ≡ true) ↔ (
          (env.refers sid run ≡ true)
          ⊎ ((k : Stamp) → mem k (stamps rows) ≡ true → is_some (select_hash sid k old) ≡ true))
  unfolding permitted mem
  permitted_iff run rows old series = (
    (λ e. elim (list_cases (insert_rows rows old).1) [
      | inl nothing ↦
          inr (λ k m. ground (arith, mem-inserted sid k rows old series, ap (mem k) nothing))
      | inr (k, ks, some_key) ↦ inl (rw some_key at e)
    ]),
    (λ reason. elim reason [
      | inl there ↦ elim (list_cases (insert_rows rows old).1) [
        | inl nothing ↦ rw nothing refl
        | inr (k, ks, some_key) ↦ rw some_key there
      ]
      | inr stored ↦
          rw (ap (λ (p : List ObsRow × List Stamp). p.1) (insert_present rows old series stored))
            refl
    ]),
  )

  -- What it takes for a batch to be written.
  abbrev pub Writable : Context → ℕ → List ObservationIn → Session → Type 0
  Writable c run obs s =
      (refused c ≡ false)
      × (validate_rows 0 obs ≡ ok tt)
      × (seen : Seen) × (deduped : List ObservationIn) × (dedup env sid obs [] []
          ≡ ok (seen, deduped))
      × NoConflict sid seen s.rows
      × (accepted env deduped ≡ true)
      × ((env.refers sid run ≡ true)
          ⊎ ((k : Stamp)
              → mem k (keys_of deduped) ≡ true
              → is_some (select_hash sid k s.rows) ≡ true))

  -- `write` returns a count exactly when all of this holds: there is somebody to name, every row is
  -- valid, Phase 0b finds no bad metadata or payload and no contradiction within the batch, no stored
  -- hash contradicts it, the columns and CHECKs of the table take every row kept, and the series and
  -- the run exist or every key is stored already.
  pub write_returns :
      (c : Context) (run t : ℕ) (obs : List ObservationIn) (s : Session)
      → ((n : WriteCount) × (s' : Session) × (write env c run sid t obs s ≡ done n s'))
        ↔ Writable c run obs s
  write_returns c run t obs s = (
    (λ (n, s', e).
        let (seen, ds, rows, valid, once, fits, takes, w, series, keys, bound) =
          write_whole env c run sid t obs s s' n e in
        let (fine, _, _, _, _, _) = write_parts env c run sid t obs s s' n e in
        let taken = takes rows bound in
        (
          fine,
          valid,
          seen,
          ds,
          once,
          fits,
          ground (arith, taken),
          rw keys at ((permitted_iff run rows s.rows series).0 (ground (arith, taken))),
        )),
    (λ (fine, valid, seen, ds, once, fits, takes, reason).
        let (n, s', _, ran, _, _, _, _) =
          write_done env c run sid t obs seen ds s fine valid once fits (λ rows bound.
            let (series, keys) = rows_of_lem env c run sid (audit_cols c) ds bound in
            rw (takes, (permitted_iff run rows s.rows series).1 (rw (← keys) at reason)) refl) in
        (n, s', ran)),
  )

  -- Writing a batch again, after it was written, in any context that is not refused and for any run,
  -- returns a count with nothing inserted, as many keys unchanged as the first write inserted or found
  -- unchanged, and leaves every observation as it was.
  pub write_again :
      (c d : Context) (run again t u : ℕ) (obs : List ObservationIn) (s s' : Session)
      (n : WriteCount)
      → write env c run sid t obs s ≡ done n s'
      → refused d ≡ false
      → (m : WriteCount) × (s'' : Session) × (write env d again sid u obs s' ≡ done m s'')
        × (m.inserted ≡ 0)
        × (m.unchanged ≡ n.inserted + n.unchanged)
        × (s''.rows ≡ s'.rows)
  write_again c d run again t u obs s s' n e fine =
      let (seen, ds, rows, valid, deduped, fits, takes, w, series, keys, bound) =
        write_whole env c run sid t obs s s' n e in
      let (inv, _, _, _) = dedup_lem env sid obs [] [] (nothing_seen env c run sid) deduped in
      let stored =
        stored_of_seen env c run sid seen ds rows s.rows s'.rows inv bound fits w.table in
      let fits' : NoConflict sid seen s'.rows = λ k h g p q. ground (arith, stored k g) in
      let present : (k : Stamp)
          → mem k (keys_of ds) ≡ true
          → is_some (select_hash sid k s'.rows) ≡ true =
        λ k there. elim (Option-cases (seen_hash k seen)) [
          | inr (h, found) ↦ ground (arith, stored k h)
          | inl absent ↦ absurd (ground (arith, inv.covered k))
        ] in
      let takes' : Insertable env d again sid ds s'.rows = λ rs bound'.
        let (series', keys') = rows_of_lem env d again sid (audit_cols d) ds bound' in
        let allowed = (permitted_iff again rs s'.rows series').1 (inr (rw (← keys') at present)) in
        ground (arith, takes rows bound, allowed) in
      let (m, s'', rows', ran, w', series', keys', _) =
        write_done env d again sid u obs seen ds s' fine valid deduped fits' takes' in
      let nothing_new = insert_present rows' s'.rows series' (rw (← keys') at present) in
      (
        m,
        s'',
        ran,
        w'.inserted_new ∙ ap (λ (p : List ObsRow × List Stamp). length p.1) nothing_new,
        omega (
          arith,
          w'.each_once,
          w.each_once,
          w'.inserted_new,
          ap (λ (p : List ObsRow × List Stamp). length p.1) nothing_new,
          ap length keys,
          ap length keys',
          length-map rows (λ r. r.stamp),
          length-map rows' (λ r. r.stamp),
        ),
        w'.table ∙ ap (λ (p : List ObsRow × List Stamp). p.0) nothing_new,
      )
