-- ===== src/Streams/Row/Processed.antt =====
-- The body of the loop in `_drain_one_batch` of streams/outbox_drainer.py: what it sent to Redis, and what
-- it wrote down.
use aslan_core.Base.{
  ℕ, zero, suc, ◌≤◌, String, Bool, true, false, ◌≡◌, refl, sym, ap, ◌⊎◌, inl, inr, arith,
}
use mathlib.Core.Path.{subst}
use aslan_core.Base.Sort.{In}
use aslan_core.Action.{Outcome, done, raised, OnDone-done}
use aslan_core.Result.{Error, cancelled_error}
use aslan_core.Json.{int, obj}
use aslan_core.Streams.Ids.{RedisId}
use aslan_core.Streams.Services.{Entries, Services}
use aslan_core.Streams.Reconcile.{Hub, call, index_copy, capture_stream_lower_bound}
use aslan_core.Streams.Outbox.{OutboxRow, World, with_hub, mark_published, insert_own}
use aslan_core.Streams.Outbox.Laws.{peel}
use aslan_core.Streams.Row.{
  Stdlib, str_take, copy_for, xadd_fields, error_text, publish_row, settle_row, process_row,
}
use aslan_core.Streams.Row.Effect.{Published, failed_db, publish_row_lem, recovered}

-- `s + t` and `len(s)`
abbrev glue : String → String → String
glue String.[] t = t
glue (String.◌∷◌ c s) t = String.◌∷◌ c (glue s t)

abbrev chars : String → ℕ
chars String.[] = 0
chars (String.◌∷◌ c s) = suc (chars s)

-- The first `n` characters of a text, or all of it where it has fewer.
abbrev pub IsCut : ℕ → String → String → Type 0
IsCut n cut text =
    (rest : String) × (glue cut rest ≡ text) × (chars cut ≤ n) × ((rest ≡ "") ⊎ (chars cut ≡ n))

str_take-IsCut : (n : ℕ) (s : String) → IsCut n (str_take n s) s
unfolding str_take
str_take-IsCut zero String.[] = (String.[], refl, omega arith, inl refl)
str_take-IsCut zero (String.◌∷◌ c s) = (String.◌∷◌ c s, refl, omega arith, inr refl)
str_take-IsCut (suc n) String.[] = (String.[], refl, omega arith, inl refl)
str_take-IsCut (suc n) (String.◌∷◌ c s) =
    let (rest, whole, short, all) = str_take-IsCut n s in
    (
      rest,
      ap (String.◌∷◌ c) whole,
      omega (arith, short),
      elim all [ inl none_left ↦ inl none_left | inr full ↦ inr (ap suc full) ],
    )

module _ {E : Type 0} (svc : Services E) (lib : Stdlib) (maxlen : ℕ) where
  -- The message of a row: its event id, its schema version and its payload.
  abbrev pub Carries : OutboxRow → Entries → Type 0
  Carries r fields =
      In ("event_id", r.event_id) fields
      × In ("schema_version", lib.to_str (int r.schema_version)) fields
      × In ("payload", lib.dumps (obj r.payload)) fields

  -- Redis was sent a message of the row, on its stream, and gave it this id.
  abbrev pub Replied : OutboxRow → RedisId → Type 0
  Replied r rid =
      (fields : Entries) × (h : Hub E) × (h' : Hub E) × Carries r fields
      × (call (svc.xadd r.stream_name fields maxlen) h ≡ done rid h')

  -- Publishing the row raised the error, in the transaction as it was.
  abbrev pub Raised : OutboxRow → World E → Error → Type 0
  Raised r w e =
      (h : Hub E) × (v : World E) × (publish_row svc lib maxlen r (with_hub w h) ≡ raised e v)

  -- What a row that returns has done, by whether it was drained.
  abbrev pub Processed : OutboxRow → World E → Bool → World E → Type 0
  Processed r w true v = (rid : RedisId) × Replied r rid × Published svc lib maxlen r w v rid
  Processed r w false v =
      (e : Error) × (text : String) × Raised r w e
      × IsCut 4000 text (lib.format_exc e)
      × (v.live ≡ failed_db svc lib maxlen r w.ctx.now text w.live)

  -- The id that publishing a row returns is the one of XADD.
  publish_row-Replied :
      (r : OutboxRow) (w : World E) {rid : RedisId} {w' : World E}
      → publish_row svc lib maxlen r w ≡ done rid w'
      → Replied r rid
  unfolding publish_row mark_published xadd_fields
  publish_row-Replied r w d =
      let (rid1, h1, d1, k1) =
        peel (call (svc.xadd r.stream_name (xadd_fields svc lib maxlen r) maxlen)) _ w d in
      let (u2, h2, d2, k2) =
        peel (index_copy svc (copy_for svc lib maxlen r rid1)) _ (with_hub w h1) k1 in
      let (u3, h3, d3, k3) = peel (call svc.statement) _ (with_hub w h2) k2 in
      let w4 : World E = record (with_hub w h3) {
        live = mark_published r.outbox_id rid1 (with_hub w h3);
      } in
      let (u4, h4, d4, k4) = peel (call svc.statement) _ w4 k3 in
      let w5 : World E = record (with_hub w4 h4) {
        live = insert_own (copy_for svc lib maxlen r rid1) (with_hub w4 h4);
      } in
      let (u5, h5, d5, k5) = peel (call svc.statement) _ w5 k4 in
      OnDone-done (λ id v. Replied r id) k5
        (
          xadd_fields svc lib maxlen r,
          w.hub,
          h1,
          (inl refl, inr (inl refl), inr (inr (inl refl))),
          d1,
        )

  settled-Processed :
      (r : OutboxRow) (lower : RedisId) (w : World E) (h : Hub E) (o : Outcome (World E) RedisId)
      {b : Bool} {w' : World E}
      → publish_row svc lib maxlen r (with_hub w h) ≡ o
      → settle_row svc lib maxlen r lower w.live o ≡ done b w'
      → Processed r w b w'
  unfolding settle_row error_text
  settled-Processed r lower w h (done rid v) e d =
      let p = publish_row_lem svc lib maxlen r (with_hub w h) e in
      OnDone-done (Processed r w) d (
        rid,
        publish_row-Replied r (with_hub w h) e,
        record { outbox = p.outbox; indexed = p.indexed },
      )
  settled-Processed r lower w h (raised cancelled_error v) e d = absurd (cc)
  settled-Processed r lower w h (raised x v) {b} {w'} e d =
      let (failed, same) = recovered svc lib maxlen r lower (with_hub w h) v x e d in
      subst (λ a. Processed r w a w') (sym failed)
        (
          x,
          str_take 4000 (lib.format_exc x),
          (h, v, e),
          str_take-IsCut 4000 (lib.format_exc x),
          same,
        )

  -- Where the body of the loop returns, it has published the row under the id that Redis gave to a
  -- message with the row's event id, schema version and payload, sent to the row's stream, and the
  -- message is in the committed index; or publishing the row raised an error, and it has only added an
  -- attempt to the row, with the first 4000 characters of that error's traceback.
  pub process_row_lem :
      (r : OutboxRow) (w : World E) {b : Bool} {w' : World E}
      → process_row svc lib maxlen r w ≡ done b w'
      → Processed r w b w'
  unfolding process_row
  process_row_lem r w {b} {w'} d =
      let (u1, h1, d1, k1) = peel (call svc.statement) _ w d in
      let (lower, h2, d2, k2) =
        peel (capture_stream_lower_bound svc r.stream_name) _ (with_hub w h1) k1 in
      settled-Processed r lower w h2 (publish_row svc lib maxlen r (with_hub w h2)) refl k2
