-- ===== src/Streams/Drainer/Drains.antt =====
-- How many rows a batch that is not disturbed publishes.
use mathlib.Core.Path.{subst}
use aslan_core.Base.{
  ℕ, ◌+◌, ◌-◌, Bool, true, false, List, [], ◌∷◌, ◌≡◌, sym, ap, length, All, arith,
}
use aslan_core.Action.{
  Action, Outcome, done, raised, bind, put_back, Total, Total-map, Total-bind, Total-eq-done, ◌>>◌,
}
use aslan_core.Streams.Services.{Services}
use aslan_core.Streams.Reconcile.{Hub, call}
use aslan_core.Streams.Outbox.{OutboxRow, World, with_hub, sql, select_pending, count_pending}
use aslan_core.Streams.Outbox.Selected.{
  HasKey, IsChosen, select_pending-IsChosen, select_pending-HasKey,
}
use aslan_core.Streams.Outbox.Pending.{length-select_pending, count-published}
use aslan_core.Streams.Row.{Stdlib, process_row}
use aslan_core.Streams.Row.Effect.{Settled, process_row-Settled}
use aslan_core.Streams.Drainer.{Counts, counted, drain_rows, drain_selected, drain_one_batch}
use aslan_core.Streams.Drainer.Ran.{process_row-Frame, still-IsChosen, Live-Settled}
use aslan_core.Streams.Drainer.Session.{HasKey-Kept}
use aslan_core.Streams.Drainer.Progress.{NeverFails, Anything, sql-Total, process_row-Total}

module _ {E : Type 0} (svc : Services E) (fair : NeverFails svc) (lib : Stdlib) (maxlen : ℕ) where
  -- What is left after some rows were published.
  record Left (published : ℕ) (w v : World E) : Type 0 where
    pub fewer : count_pending v.live.outbox + published ≡ count_pending w.live.outbox
    pub key : HasKey v.live.outbox

  row_published :
      (r : OutboxRow) (w : World E) (b : Bool) (u : World E)
      → HasKey w.live.outbox
      → IsChosen w.live.outbox r
      → process_row svc lib maxlen r w ≡ done b u
      → b ≡ true
      → Left 1 w u
  row_published r w false u key chosen d e = absurd (cc)
  row_published r w true u key chosen d e =
      let settled : Settled svc lib maxlen r w true u = process_row-Settled svc lib maxlen r w d in
      let (rid, p) = settled in
      record {
        fewer = omega (
          arith,
          ap count_pending p.outbox,
          count-published w.ctx.now rid r w.live.outbox key chosen.there chosen.waiting,
        );
        key =
            Live-Settled svc lib maxlen (λ table d. HasKey table) (HasKey-Kept svc lib maxlen) r w
              true u chosen settled (process_row-Frame svc lib maxlen r w d) key;
      }

  drain_rows-Total :
      (rows : List OutboxRow) (c : Counts) (w : World E)
      → HasKey w.live.outbox
      → HasKey rows
      → All (IsChosen w.live.outbox) rows
      → Total (λ c' v. Left (length rows) w v) (drain_rows svc lib maxlen rows c w)
  unfolding drain_rows
  drain_rows-Total [] c w key k chosen = record { fewer = omega arith; key = key }
  drain_rows-Total (r ∷ rows) c w key k chosen =
      let (b, u, d, t) =
        Total-eq-done (λ b v. b ≡ true) (process_row svc lib maxlen r w)
          (process_row-Total svc fair lib maxlen r w) in
      let one : Left 1 w u = row_published r w b u key chosen.0 d t in
      let chosen' =
        still-IsChosen svc lib maxlen r rows w b u k.0 (process_row-Settled svc lib maxlen r w d)
          chosen.1 in
      subst
        (λ o.
          Total (λ c' v. Left (length (r ∷ rows)) w v)
            (bind o (λ b. drain_rows svc lib maxlen rows (counted b c))))
        (sym d)
        (Total-map (λ c' v. Left (length rows) u v) (λ c' v. Left (length (r ∷ rows)) w v)
          (drain_rows svc lib maxlen rows (counted b c) u)
          (λ c' v l. record { fewer = omega (arith, l.fewer, one.fewer); key = l.key })
          (drain_rows-Total rows (counted b c) u one.key k.1 chosen'))

  drain_selected-Total :
      (rows : List OutboxRow) (w : World E)
      → HasKey w.live.outbox
      → HasKey rows
      → All (IsChosen w.live.outbox) rows
      → Total (λ b v. Left (length rows) w v) (drain_selected svc lib maxlen rows w)
  unfolding drain_selected
  drain_selected-Total [] w key k chosen = record { fewer = omega arith; key = key }
  drain_selected-Total (r ∷ rows) w key k chosen =
      Total-bind (λ c v. Left (length (r ∷ rows)) w v) (λ b v. Left (length (r ∷ rows)) w v)
        (drain_rows svc lib maxlen (r ∷ rows) (0, 0) w) _
        (drain_rows-Total (r ∷ rows) (0, 0) w key k chosen) (λ c v l. l)

  -- A statement, and what comes after it in the same transaction.
  pub next :
      {A : Type 0} (Q : A → World E → Type 0) (k : Action (World E) A) (w : World E)
      → ((h : Hub E) → Total Q (k (with_hub w h)))
      → Total Q ((sql svc >> k) w)
  next {A = A} Q k w t = after_reply (call svc.statement w.hub) (sql-Total svc fair w)
    where
      after_reply :
          (o : Outcome (Hub E) (Unit {0}))
          → Total Anything (put_back (with_hub w) o)
          → Total Q (bind (put_back (with_hub w) o) (λ _. k))
      after_reply (done a h) u = t h
      after_reply (raised e h) u = absurd u

  pub last :
      (Q : Unit {0} → World E → Type 0) (w : World E)
      → ((a : Unit {0}) (h : Hub E) → Q a (with_hub w h))
      → Total Q (sql svc w)
  last Q w t = after_reply (call svc.statement w.hub) (sql-Total svc fair w)
    where
      after_reply :
          (o : Outcome (Hub E) (Unit {0}))
          → Total Anything (put_back (with_hub w) o)
          → Total Q (put_back (with_hub w) o)
      after_reply (done a h) u = t a h
      after_reply (raised e h) u = absurd u

  -- A batch leaves `n` rows less, or none.
  abbrev pub Batched : ℕ → World E → World E → Type 0
  Batched n w v =
      (count_pending v.live.outbox ≡ count_pending w.live.outbox - n) × HasKey v.live.outbox

  pub drain_one_batch-Total :
      (n : ℕ) (w : World E)
      → HasKey w.live.outbox
      → Total (λ b v. Batched n w v) (drain_one_batch svc lib maxlen n w)
  unfolding drain_one_batch
  drain_one_batch-Total n w key =
      next (λ b v. Batched n w v) _ w
        (λ h.
          let locked : ℕ → Bool = svc.locked h.env in
          let rows : List OutboxRow = select_pending n locked w.live.outbox in
          Total-map (λ b v. Left (length rows) (with_hub w h) v) (λ b v. Batched n w v)
            (drain_selected svc lib maxlen rows (with_hub w h))
            (λ b v l. (
              omega (
                arith,
                l.fewer,
                length-select_pending n locked w.live.outbox (fair.locked h.env),
              ),
              l.key,
            ))
            (drain_selected-Total rows (with_hub w h) key
              (select_pending-HasKey locked n w.live.outbox key)
              (select_pending-IsChosen locked n w.live.outbox key)))
