-- ===== src/Streams/Row/Effect.antt =====
-- What the body of the loop does to the outbox when it returns: one row published or one failure
-- written down.
use mathlib.Core.Path.{subst}
use aslan_core.Base.{ℕ, String, Bool, true, false, ◌≡◌, refl, sym, ap, ◌∙◌, inl, inr, Bool-cases}
use aslan_core.Base.Sort.{In}
use aslan_core.Action.{
  Action, Outcome, done, raised, pure, bind, bind-eq-done, state, Keeps-done, OnDone-done, ◌>>◌,
}
use aslan_core.Result.{Error, cancelled_error}
use aslan_core.Streams.Ids.{RedisId}
use aslan_core.Streams.Services.{Services}
use aslan_core.Streams.Reconcile.{
  Copy, Hub, has_copy, call, index_copy, capture_stream_lower_bound, reconcile_unindexed_xadd,
}
use aslan_core.Streams.Reconcile.Finds.{index_copy_indexes}
use aslan_core.Streams.Outbox.{
  OutboxRow, Db, World, with_hub, in_hub, sql, change, update_outbox, published, failed,
  mark_published, mark_failed, insert_own,
}
use aslan_core.Streams.Outbox.Laws.{peel, in_hub-eq-done, state-put_back}
use aslan_core.Streams.Row.{
  Stdlib, copy_for, xadd_fields, error_text, swallowed, swallow, publish_row, reconcile_row,
  recover_row, settle_row, process_row,
}
use aslan_core.Streams.Row.Frame.{Frame, Frame-refl, publish_row-Framed, call-OnlyGrows}

outbox-insert_own : {E : Type 0} (c : Copy) (w : World E) → (insert_own c w).outbox ≡ w.live.outbox
unfolding insert_own
outbox-insert_own c w = elim (Bool-cases (has_copy c w.hub.durable)) [
  | inl there ↦ rw there refl
  | inr absent ↦ rw absent refl
]

module _ {E : Type 0} (svc : Services E) (lib : Stdlib) (maxlen : ℕ) where
  -- The row published, and its message indexed.
  pub record Published (r : OutboxRow) (w v : World E) (rid : RedisId) : Type 0 where
    pub outbox : v.live.outbox ≡ update_outbox r.outbox_id (published w.ctx.now rid) w.live.outbox
    pub indexed : In (copy_for svc lib maxlen r rid) v.hub.durable

  -- A statement that returns leaves the committed copies.
  still :
      (c : Copy) (g h : Hub E) {a : Unit {0}}
      → call svc.statement g ≡ done a h
      → In c g.durable
      → In c h.durable
  still c g h d i =
      Keeps-done (λ (k : Hub E). In c k.durable) _ d (call-OnlyGrows svc svc.statement g c i)

  pub publish_row_lem :
      (r : OutboxRow) (w : World E) {rid : RedisId} {w' : World E}
      → publish_row svc lib maxlen r w ≡ done rid w'
      → Published r w w' rid
  unfolding publish_row mark_published
  publish_row_lem r w {rid} {w'} d =
      let (rid1, h1, d1, k1) =
        peel (call (svc.xadd r.stream_name (xadd_fields svc lib maxlen r) maxlen)) _ w d in
      let (u2, h2, d2, k2) =
        peel (index_copy svc (copy_for svc lib maxlen r rid1)) _ (with_hub w h1) k1 in
      let (u3, h3, d3, k3) = peel (call svc.statement) _ (with_hub w h2) k2 in
      let w4 : World E = record (with_hub w h3) {
        live = mark_published r.outbox_id rid1 (with_hub w h3);
      } in
      let (u4, h4, d4, k4) = peel (call svc.statement) _ w4 k3 in
      let w5 : World E = record (with_hub w4 h4) {
        live = insert_own (copy_for svc lib maxlen r rid1) (with_hub w4 h4);
      } in
      let (u5, h5, d5, k5) = peel (call svc.statement) _ w5 k4 in
      let c : Copy = copy_for svc lib maxlen r rid1 in
      OnDone-done (λ id v. Published r w v id) k5
        (record {
          outbox = outbox-insert_own c (with_hub w4 h4);
          indexed =
              still c h4 h5 d5
                (still c h3 h4 d4 (still c h2 h3 d3 (index_copy_indexes svc c h1 d2)));
        })

  -- The row failed: one more attempt, with its error, and nothing else of the transaction.
  abbrev pub failed_db : OutboxRow → ℕ → String → Db → Db
  failed_db r now err db = record db {
    outbox = update_outbox r.outbox_id (failed now err) db.outbox;
  }

  state-swallow : {S : Type 0} (o : Outcome S Bool) → state (swallow svc lib maxlen o) ≡ state o
  state-swallow (done b v) = refl
  state-swallow (raised e v) = elim (Bool-cases (swallowed e)) [
    | inl caught ↦ rw (caught, state) refl
    | inr passed ↦ rw (passed, state) refl
  ]

  reconcile_row-live :
      (r : OutboxRow) (lower : RedisId) (w : World E) {u : Unit {0}} {v : World E}
      → reconcile_row svc lib maxlen r lower w ≡ done u v
      → v ≡ with_hub w (state (reconcile_unindexed_xadd svc r.stream_name r.event_id lower w.hub))
  unfolding reconcile_row
  reconcile_row-live r lower w {u} {v} d =
      let m : Action (Hub E) Bool = reconcile_unindexed_xadd svc r.stream_name r.event_id lower in
      sym (ap state d) ∙ state-swallow (in_hub m w) ∙ state-put_back (with_hub w) (m w.hub)

  recover_row_lem :
      (r : OutboxRow) (lower : RedisId) (e : Error) (db : Db) (w : World E) {u : Unit {0}}
      {w' : World E}
      → recover_row svc lib maxlen r lower e db w ≡ done u w'
      → w'.live ≡ failed_db r w.ctx.now (error_text svc lib maxlen e) db
  unfolding recover_row mark_failed
  recover_row_lem r lower e db w {u} {w'} d =
      let (u1, h1, d1, k1) = peel (call svc.statement) _ w d in
      let w1 : World E = record (with_hub w h1) { live = db } in
      let (u2, w2, d2, k2) = bind-eq-done (reconcile_row svc lib maxlen r lower w1) _ k1 in
      let w3 : World E =
        with_hub w1 (state (reconcile_unindexed_xadd svc r.stream_name r.event_id lower w1.hub)) in
      let k3 =
        subst (λ v. (sql svc >> marked) v ≡ done u w') (reconcile_row-live r lower w1 d2) k2 in
      let (u4, h4, d4, k4) = peel (call svc.statement) _ w3 k3 in
      let (u5, h5, d5, k5) = peel (call svc.statement) _ (with_hub w3 h4) k4 in
      let w6 : World E = record (with_hub w3 h5) {
        live = mark_failed r.outbox_id text (with_hub w3 h5);
      } in
      let (u6, h6, d6, k6) = peel (call svc.statement) _ w6 k5 in
      let (h7, d7, same) = in_hub-eq-done (call svc.statement) (with_hub w6 h6) k6 in
      ap (λ (v : World E). v.live) same
    where
      text : String
      text = error_text svc lib maxlen e

      marked : Action (World E) (Unit {0})
      marked = sql svc >> (change (mark_failed r.outbox_id text) >> (sql svc >> sql svc))

  -- What a row that returns has done, by whether it was drained.
  abbrev pub Settled : OutboxRow → World E → Bool → World E → Type 0
  Settled r w true v = (rid : RedisId) × Published r w v rid
  Settled r w false v =
      (e : Error) × (v.live ≡ failed_db r w.ctx.now (error_text svc lib maxlen e) w.live)

  pub recovered :
      (r : OutboxRow) (lower : RedisId) (w v : World E) (x : Error) {b : Bool} {w' : World E}
      → publish_row svc lib maxlen r w ≡ raised x v
      → bind (recover_row svc lib maxlen r lower x w.live v) (λ _. pure false) ≡ done b w'
      → (b ≡ false) × (w'.live ≡ failed_db r w.ctx.now (error_text svc lib maxlen x) w.live)
  recovered r lower w v x e d =
      let (u, w2, d1, d2) = bind-eq-done (recover_row svc lib maxlen r lower x w.live v) _ d in
      let framed : Frame w v =
        subst (λ o. Frame w (state o)) e
          ((publish_row-Framed svc lib maxlen w r).keeps w (Frame-refl w)) in
      let text : String = error_text svc lib maxlen x in
      OnDone-done
        (λ a v. (a ≡ false) × (v.live ≡ failed_db r w.ctx.now (error_text svc lib maxlen x) w.live))
        d2
        (
          refl,
          recover_row_lem r lower x w.live v d1
              ∙ ap (λ c. failed_db r c.now text w.live) framed.ctx,
        )

  settle_row_lem :
      (r : OutboxRow) (lower : RedisId) (w : World E) (o : Outcome (World E) RedisId) {b : Bool}
      {w' : World E}
      → publish_row svc lib maxlen r w ≡ o
      → settle_row svc lib maxlen r lower w.live o ≡ done b w'
      → Settled r w b w'
  unfolding settle_row
  settle_row_lem r lower w (done rid v) e d =
      OnDone-done (Settled r w) d (rid, publish_row_lem r w e)
  settle_row_lem r lower w (raised cancelled_error v) e d = absurd (cc)
  settle_row_lem r lower w (raised x v) {b} {w'} e d =
      let (failed, same) = recovered r lower w v x e d in
      subst (λ a. Settled r w a w') (sym failed) (x, same)

  Settled-with_hub :
      (r : OutboxRow) (w : World E) (h : Hub E) (b : Bool) (v : World E)
      → Settled r (with_hub w h) b v
      → Settled r w b v
  Settled-with_hub r w h true v (rid, p) = (rid, record { outbox = p.outbox; indexed = p.indexed })
  Settled-with_hub r w h false v s = s

  pub process_row-Settled :
      (r : OutboxRow) (w : World E) {b : Bool} {w' : World E}
      → process_row svc lib maxlen r w ≡ done b w'
      → Settled r w b w'
  unfolding process_row
  process_row-Settled r w {b} {w'} d =
      let (u1, h1, d1, k1) = peel (call svc.statement) _ w d in
      let (lower, h2, d2, k2) =
        peel (capture_stream_lower_bound svc r.stream_name) _ (with_hub w h1) k1 in
      Settled-with_hub r w h2 b w' (
        settle_row_lem r lower (with_hub w h2) (publish_row svc lib maxlen r (with_hub w h2)) refl
          k2)
