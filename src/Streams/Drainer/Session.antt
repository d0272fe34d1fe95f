-- ===== src/Streams/Drainer/Session.antt =====
-- The transaction of a batch: what its rows keep, it keeps of the committed tables, on every outcome.
use mathlib.Core.Path.{subst}
use aslan_core.Base.{ℕ, Bool, List, [], ◌∷◌, ◌≡◌, refl, sym, ltb, All}
use aslan_core.Base.Sort.{In}
use aslan_core.Action.{
  Action, Outcome, done, raised, bind, bind-eq-done, state, put_back, Keeps, Keeps-bind, Keeps-done,
  OnDone, OnDone-done, OnDone-of, Keeps-if, ◌>>◌,
}
use aslan_core.Audit.Recorder.{record_event}
use aslan_core.Streams.Services.{Services}
use aslan_core.Streams.Reconcile.{Copy, Hub, call, insert_copy}
use aslan_core.Streams.Reconcile.Copies.{insert_copy-keeps}
use aslan_core.Streams.Outbox.{
  OutboxRow, Db, World, with_hub, sql, select_pending, published, failed,
}
use aslan_core.Streams.Outbox.Laws.{state-put_back, Keeps-in_hub, peel, Grows}
use aslan_core.Streams.Outbox.Selected.{
  HasKey, IsChosen, select_pending-IsChosen, select_pending-HasKey, HasKey-update_outbox,
}
use aslan_core.Streams.Row.{Stdlib}
use aslan_core.Streams.Row.Frame.{
  Frame, Frame-refl, Framed, process_row-Framed, then_do, then_sql, then_pure, call-OnlyGrows,
}
use aslan_core.Streams.Drainer.{
  Batch, batch_of, Counts, counted, drain_rows, drain_selected, drain_one_batch, drained_record,
  with_events, audit_batch, merge, commit, rolled_back, drain_session,
}
use aslan_core.Streams.Drainer.Ran.{Kept, Ran-Live, drain_rows-Ran}

module _ {E : Type 0} (svc : Services E) (lib : Stdlib) (maxlen : ℕ) where
  pub HasKey-Kept : Kept svc lib maxlen (λ table d. HasKey table)
  unfolding published failed
  HasKey-Kept = record {
    more_copies = λ table d d' grows k. k;
    publish = λ table d r now rid chosen copy k.
        HasKey-update_outbox r.outbox_id (published now rid) table (λ x. refl) k;
    fail = λ table d r now err chosen k.
        HasKey-update_outbox r.outbox_id (failed now err) table (λ x. refl) k;
  }

  module _ (w : World E) where
    drain_rows-Framed :
        (rows : List OutboxRow) (c : Counts) → Framed w (drain_rows svc lib maxlen rows c)
    unfolding drain_rows
    drain_rows-Framed [] c = then_pure
    drain_rows-Framed (r ∷ rows) c =
        then_do (process_row-Framed svc lib maxlen w r) (λ b. drain_rows-Framed rows (counted b c))

    clock-Framed : Framed w (λ v. done (svc.clock v.hub.env) v)
    clock-Framed = record { keeps = λ v f. f }

    drain_selected-Framed : (rows : List OutboxRow) → Framed w (drain_selected svc lib maxlen rows)
    unfolding drain_selected
    drain_selected-Framed [] = then_pure
    drain_selected-Framed (r ∷ rows) = then_do clock-Framed (λ now.
        then_do (drain_rows-Framed (r ∷ rows) (0, 0)) (λ c. then_pure {a = batch_of now r rows c}))

    pub drain_one_batch-Framed : (n : ℕ) → Framed w (drain_one_batch svc lib maxlen n)
    unfolding drain_one_batch
    drain_one_batch-Framed n = then_sql svc w (record {
      keeps = λ v.
          (drain_selected-Framed (select_pending n (svc.locked v.hub.env) v.live.outbox)).keeps v;
    })

  merge-keeps :
      (c : Copy) (own copies : List Copy) → In c copies → In c (merge svc lib maxlen own copies)
  merge-keeps c [] copies i = i
  merge-keeps c (d ∷ own) copies i =
      merge-keeps c own (insert_copy d copies) (insert_copy-keeps d c copies i)

  module _ (L : List OutboxRow → List Copy → Type 0) (kept : Kept svc lib maxlen L) where
    -- Of the committed tables, and of what the transaction sees.
    abbrev pub Safe : World E → Type 0
    Safe v = HasKey v.saved.outbox × L v.saved.outbox v.hub.durable

    abbrev Good : World E → Type 0
    Good v = Safe v × HasKey v.live.outbox × L v.live.outbox v.hub.durable

    pub Frame-Safe : (w v : World E) → Frame w v → Safe w → Safe v
    Frame-Safe w v f s =
        subst (λ (db : Db). HasKey db.outbox × L db.outbox v.hub.durable) (sym f.saved)
          (s.0, kept.more_copies w.saved.outbox w.hub.durable v.hub.durable f.grows s.1)

    Good-with_hub : (w : World E) (h : Hub E) → Grows w.hub h → Good w → Good (with_hub w h)
    Good-with_hub w h grows g =
        let (safe, key, l) = g in
        (
          (safe.0, kept.more_copies w.saved.outbox w.hub.durable h.durable grows safe.1),
          key,
          kept.more_copies w.live.outbox w.hub.durable h.durable grows l,
        )

    sql-Good : Keeps Good (sql svc)
    sql-Good = Keeps-in_hub Good (call svc.statement) (λ w g.
        Good-with_hub w (state (call svc.statement w.hub)) (call-OnlyGrows svc svc.statement w.hub)
          g)

    drain_selected-Good :
        (rows : List OutboxRow) (w : World E) {b : Batch} {v : World E}
        → HasKey rows
        → All (IsChosen w.live.outbox) rows
        → drain_selected svc lib maxlen rows w ≡ done b v
        → HasKey w.live.outbox × L w.live.outbox w.hub.durable
        → HasKey v.live.outbox × L v.live.outbox v.hub.durable
    unfolding drain_selected
    drain_selected-Good [] w k chosen d g =
        OnDone-done
          (λ (b : Batch) (u : World E). HasKey u.live.outbox × L u.live.outbox u.hub.durable) d g
    drain_selected-Good (r ∷ rows) w k chosen d g =
        let (c, u, d1, d2) = bind-eq-done (drain_rows svc lib maxlen (r ∷ rows) (0, 0) w) _ d in
        let run = drain_rows-Ran svc lib maxlen (r ∷ rows) (0, 0) w d1 in
        OnDone-done
          (λ (b : Batch) (u : World E). HasKey u.live.outbox × L u.live.outbox u.hub.durable) d2
          (
            Ran-Live svc lib maxlen (λ table d. HasKey table) HasKey-Kept (r ∷ rows) (0, 0) w c u k
                chosen run g.0,
            Ran-Live svc lib maxlen L kept (r ∷ rows) (0, 0) w c u k chosen run g.1,
          )

    drain_one_batch-Good :
        (n : ℕ) (w : World E) {b : Batch} {v : World E}
        → drain_one_batch svc lib maxlen n w ≡ done b v
        → Good w
        → Good v
    unfolding drain_one_batch
    drain_one_batch-Good n w {b} {v} d g =
        let (u, h, d1, d2) = peel (call svc.statement) _ w d in
        let locked : ℕ → Bool = svc.locked h.env in
        let (safe, key, l) = g in
        let grown : Good (with_hub w h) =
          Good-with_hub w h
            (λ c i.
              Keeps-done (λ (k : Hub E). In c k.durable) _ d1
                (call-OnlyGrows svc svc.statement w.hub c i))
            g in
        let frame : Frame w v =
          Keeps-done (Frame w) _ d ((drain_one_batch-Framed w n).keeps w (Frame-refl w)) in
        let (key', l') =
          drain_selected-Good (select_pending n locked w.live.outbox) (with_hub w h)
            (select_pending-HasKey locked n w.live.outbox key)
            (select_pending-IsChosen locked n w.live.outbox key) d2 (grown.1, grown.2) in
        (Frame-Safe w v frame safe, key', l')

    audit_batch-Good : (b : Batch) → Keeps Good (audit_batch svc lib maxlen b)
    unfolding audit_batch
    audit_batch-Good b = Keeps-if Good (ltb 0 b.drained) (emit b >> sql svc) (
        Keeps-bind Good (emit b) _
          (λ w g.
            subst Good
              (sym (
                state-put_back (with_events svc lib maxlen w)
                  (record_event w.ctx (drained_record svc lib maxlen b) w.live.events)))
              g)
          (λ _. sql-Good))
      where
        emit : Batch → Action (World E) (Unit {0})
        emit b w =
            put_back (with_events svc lib maxlen w)
              (record_event w.ctx (drained_record svc lib maxlen b) w.live.events)

    commit-Good : Keeps Good (commit svc lib maxlen)
    commit-Good = Keeps-bind Good (sql svc) _ sql-Good (λ _ v g.
        let (safe, key, l) = g in
        let l' =
          kept.more_copies v.live.outbox v.hub.durable _
            (λ c i. merge-keeps c v.live.own v.hub.durable i) l in
        ((key, l'), key, l'))

    after_batch :
        (w : World E) (o : Outcome (World E) Batch)
        → Safe (state o)
        → OnDone (λ b v. Good v) o
        → Safe (state (bind o (λ b. audit_batch svc lib maxlen b >> commit svc lib maxlen)))
    after_batch w (raised e v) safe good = safe
    after_batch w (done b v) safe good =
        (Keeps-bind Good (audit_batch svc lib maxlen b) _ (audit_batch-Good b) (λ _. commit-Good) v
          good).0

    -- Whatever the outcome of the transaction of a batch.
    pub drain_session-Safe : (n : ℕ) → Keeps Safe (drain_session svc lib maxlen n)
    unfolding drain_session
    drain_session-Safe n w safe =
        let start : World E = rolled_back svc lib maxlen w in
        let o : Outcome (World E) Batch = drain_one_batch svc lib maxlen n start in
        subst Safe
          (sym (
            state-put_back (rolled_back svc lib maxlen)
              (bind o (λ b. audit_batch svc lib maxlen b >> commit svc lib maxlen))))
          (after_batch w o
            (Frame-Safe start (state o)
              ((drain_one_batch-Framed start n).keeps start (Frame-refl start)) safe)
            (OnDone-of (λ b v. Good v) o
              (λ b v d. drain_one_batch-Good n start d (safe, safe.0, safe.1))))
