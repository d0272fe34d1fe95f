-- ===== src/Timeseries/Reader/Replay.antt =====
-- What `write` of timeseries/writer.py leaves of the reads of timeseries/reader.py.
use mathlib.Core.List.{append-nil}
use aslan_core.Base.{
  ℕ, Bool, false, Option, some, List, [], ◌∷◌, ◌++◌, ◌<◌, ◌≡◌, ◌≢◌, refl, ◌∙◌, arith, All,
}
use aslan_core.Base.Sort.{All_map}
use aslan_core.Action.{done}
use aslan_core.Audit.Context.{Context}
use aslan_core.Timeseries.Types.{ObservationIn, Stamp, Env, WriteCount, stamp_of}
use aslan_core.Timeseries.Table.{ObsRow, stamps}
use aslan_core.Timeseries.Table.Laws.{insert_rows-append}
use aslan_core.Timeseries.Batch.Keys.{dedup-All}
use aslan_core.Timeseries.Batch.Dedup.{keys_of}
use aslan_core.Timeseries.Writer.{Session, write}
use aslan_core.Timeseries.Writer.Correct.{write_whole}
use aslan_core.Timeseries.Reader.{
  latest, range, range_rows, where_latest, where_range, known_at, select,
}
use aslan_core.Timeseries.Reader.Rows.{select-append, select_none}

-- The two reads of a series see the same in two tables.
abbrev pub SameReads : ℕ → Option ℕ → List ObsRow → List ObsRow → Type 0
SameReads q pit new old =
    (latest q pit new ≡ latest q pit old)
    × ((start stop : ℕ) (limit : Option ℕ)
        → range q start stop pit limit new ≡ range q start stop pit limit old)

abbrev Later : ℕ → Stamp → Type 0
Later pit k = pit < k.as_of

Later-rows :
    (pit : ℕ) (rows : List ObsRow) (ds : List ObservationIn)
    → stamps rows ≡ keys_of ds
    → All (λ (o : ObservationIn). Later pit (stamp_of o)) ds
    → All (λ (r : ObsRow). Later pit r.stamp) rows
Later-rows pit [] ds e h = tt
Later-rows pit (r ∷ rows) [] e h = absurd (cc)
Later-rows pit (r ∷ rows) (o ∷ ds) e h =
    let (here, rest) : (r.stamp ≡ stamp_of o) × (stamps rows ≡ keys_of ds) = (cc, cc) in
    (rw here (h.0), Later-rows pit rows ds rest h.1)

select_grown :
    (p : ObsRow → Bool) (old new : List ObsRow)
    → All (λ r. p r ≡ false) new
    → select p (old ++ new) ≡ select p old
select_grown p old new h =
    rw (select-append p old new, select_none p new h) (append-nil (select p old))

same_reads :
    (q : ℕ) (pit : Option ℕ) (old new : List ObsRow)
    → All
        (λ (r : ObsRow).
          (where_latest q pit r ≡ false)
          × ((start stop : ℕ) → where_range q start stop pit r ≡ false))
        new
    → SameReads q pit (old ++ new) old
unfolding latest range range_rows
same_reads q pit old new h = (
  rw
      (select_grown (where_latest q pit) old new
        (All_map _ (λ r. where_latest q pit r ≡ false) new (λ r k. k.0) h))
      refl,
  λ start stop limit.
      rw
        (select_grown (where_range q start stop pit) old new
          (All_map _ (λ r. where_range q start stop pit r ≡ false) new (λ r k. k.1 start stop) h))
        refl,
)

unseen_later :
    (q pit : ℕ) (r : ObsRow)
    → pit < r.stamp.as_of
    → (where_latest q (some pit) r ≡ false)
      × ((start stop : ℕ) → where_range q start stop (some pit) r ≡ false)
unfolding where_latest where_range known_at
unseen_later q pit r h = (ground arith, λ start stop. ground arith)

unseen_other :
    (q sid : ℕ) (pit : Option ℕ) (r : ObsRow)
    → q ≢ sid
    → r.series_id ≡ sid
    → (where_latest q pit r ≡ false) × ((start stop : ℕ) → where_range q start stop pit r ≡ false)
unfolding where_latest where_range
unseen_other q sid pit r h e = (ground arith, λ start stop. ground arith)

module _ (env : Env) (c : Context) (run sid t : ℕ) (obs : List ObservationIn) (s s' : Session)
    (n : WriteCount) where
  -- A batch all of whose rows became known after a point in time changes no read of any series as of
  -- that point: neither `latest` nor `range`, whatever the window and the limit.
  pub write_keeps_past :
      (pit q : ℕ)
      → All (λ (o : ObservationIn). pit < o.as_of.instant) obs
      → write env c run sid t obs s ≡ done n s'
      → SameReads q (some pit) s'.rows s.rows
  unfolding stamp_of
  write_keeps_past pit q late e =
      let (seen, ds, rows, _, deduped, _, _, w, series, keys, _) =
        write_whole env c run sid t obs s s' n e in
      let (new, grown, _, of_new) = insert_rows-append rows s.rows in
      let kept =
        dedup-All env sid (λ o. Later pit (stamp_of o)) obs [] [] seen ds late tt deduped in
      let fresh : All (λ (r : ObsRow). Later pit r.stamp) new =
        of_new (λ r. Later pit r.stamp) (Later-rows pit rows ds keys kept) in
      rw (w.table ∙ grown) (
        same_reads q (some pit) s.rows new
          (All_map (λ (r : ObsRow). Later pit r.stamp) _ new (unseen_later q pit) fresh))

  -- A batch of one series changes no read of another, at any point in time.
  pub write_keeps_others :
      (q : ℕ) (pit : Option ℕ)
      → q ≢ sid
      → write env c run sid t obs s ≡ done n s'
      → SameReads q pit s'.rows s.rows
  write_keeps_others q pit other e =
      let (seen, ds, rows, _, deduped, _, _, w, series, keys, _) =
        write_whole env c run sid t obs s s' n e in
      let (new, grown, _, of_new) = insert_rows-append rows s.rows in
      let mine : All (λ (r : ObsRow). r.series_id ≡ sid) new =
        of_new (λ r. r.series_id ≡ sid) series in
      rw (w.table ∙ grown) (
        same_reads q pit s.rows new (
          All_map (λ (r : ObsRow). r.series_id ≡ sid) _ new (λ r. unseen_other q sid pit r other)
            mine))
