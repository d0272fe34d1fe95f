-- ===== src/Streams/Drainer/Counts.antt =====
-- The counts of a batch.
use aslan_core.Base.{ℕ, zero, suc, ◌+◌, ◌≤◌, Bool, List, [], ◌∷◌, ◌≡◌, length, take, arith}
use aslan_core.Action.{done, bind-eq-done, OnDone-done}
use aslan_core.Streams.Services.{Services}
use aslan_core.Streams.Reconcile.{Hub, call}
use aslan_core.Streams.Outbox.{OutboxRow, World, with_hub, select_pending}
use aslan_core.Streams.Outbox.Laws.{peel}
use aslan_core.Streams.Row.{Stdlib}
use aslan_core.Streams.Drainer.{Batch, drain_rows, drain_selected, drain_one_batch}
use aslan_core.Streams.Drainer.Ran.{drain_rows-Ran, Ran-counts}

length-take : {A : Type 0} (n : ℕ) (xs : List A) → length (take n xs) ≤ n
length-take zero xs = omega arith
length-take (suc n) [] = omega arith
length-take (suc n) (x ∷ xs) = omega (arith, length-take n xs)

length-select_pending :
    (n : ℕ) (locked : ℕ → Bool) (table : List OutboxRow)
    → length (select_pending n locked table) ≤ n
unfolding select_pending
length-select_pending n locked table = length-take n _

module _ {E : Type 0} (svc : Services E) (lib : Stdlib) (maxlen : ℕ) where
  drain_selected-counts :
      (rows : List OutboxRow) (w : World E) {b : Batch} {w' : World E}
      → drain_selected svc lib maxlen rows w ≡ done b w'
      → b.drained + b.failures ≡ length rows
  unfolding drain_selected
  drain_selected-counts [] w d =
      OnDone-done (λ (b : Batch) (v : World E). b.drained + b.failures ≡ 0) d (omega arith)
  drain_selected-counts (r ∷ rows) w {b} {w'} d =
      let (c, v, d1, d2) = bind-eq-done (drain_rows svc lib maxlen (r ∷ rows) (0, 0) w) _ d in
      OnDone-done (λ (b : Batch) (v : World E). b.drained + b.failures ≡ length (r ∷ rows)) d2
        (omega (
          arith,
          Ran-counts svc lib maxlen (r ∷ rows) (0, 0) w c v
              (drain_rows-Ran svc lib maxlen (r ∷ rows) (0, 0) w d1),
        ))

  -- A batch that returns has counted each row that it selected once, as drained or as failed, and it
  -- has selected at most `n` rows.
  pub drain_one_batch-counts :
      (n : ℕ) (w : World E) {b : Batch} {w' : World E}
      → drain_one_batch svc lib maxlen n w ≡ done b w'
      → (h : Hub E) × (b.drained + b.failures
          ≡ length (select_pending n (svc.locked h.env) w.live.outbox))
        × (b.drained + b.failures ≤ n)
  unfolding drain_one_batch
  drain_one_batch-counts n w {b} d =
      let (u, h, d1, k1) = peel (call svc.statement) _ w d in
      let all : b.drained + b.failures
          ≡ length (select_pending n (svc.locked h.env) w.live.outbox) =
        drain_selected-counts (select_pending n (svc.locked h.env) w.live.outbox) (with_hub w h)
          k1 in
      (h, all, omega (arith, all, length-select_pending n (svc.locked h.env) w.live.outbox))
