-- ===== src/Streams/Drainer/Ran.antt =====
-- The rows of a batch that returns, one after the other.
use mathlib.Core.Path.{subst}
use aslan_core.Base.{
  ℕ, suc, ◌+◌, String, Bool, true, false, List, [], ◌∷◌, ◌≡◌, refl, sym, ap, length, All, arith,
  not-true,
}
use aslan_core.Base.Sort.{In, All_map_both}
use aslan_core.Action.{done, bind-eq-done, Keeps-done}
use aslan_core.Streams.Ids.{RedisId}
use aslan_core.Streams.Services.{Services}
use aslan_core.Streams.Reconcile.{Copy}
use aslan_core.Streams.Outbox.{OutboxRow, Db, World, update_outbox, published, failed}
use aslan_core.Streams.Outbox.Selected.{apart, HasKey, IsChosen, update_outbox-IsChosen}
use aslan_core.Streams.Row.{Stdlib, copy_for, process_row, error_text}
use aslan_core.Streams.Row.Frame.{Frame, Frame-refl, process_row-Framed}
use aslan_core.Streams.Row.Effect.{Settled, process_row-Settled}
use aslan_core.Streams.Drainer.{Counts, counted, drain_rows}

counted-sum : (b : Bool) (c : Counts) → (counted b c).0 + (counted b c).1 ≡ suc (c.0 + c.1)
counted-sum true c = omega arith
counted-sum false c = omega arith

module _ {E : Type 0} (svc : Services E) (lib : Stdlib) (maxlen : ℕ) where
  -- Each row settled, from the state in which the one before left the transaction.
  abbrev pub Ran : List OutboxRow → Counts → World E → Counts → World E → Type 0
  Ran [] c w c' v = (c' ≡ c) × (v ≡ w)
  Ran (r ∷ rows) c w c' v =
      (b : Bool) × (u : World E) × (process_row svc lib maxlen r w ≡ done b u)
      × Ran rows (counted b c) u c' v

  pub drain_rows-Ran :
      (rows : List OutboxRow) (c : Counts) (w : World E) {c' : Counts} {v : World E}
      → drain_rows svc lib maxlen rows c w ≡ done c' v
      → Ran rows c w c' v
  unfolding drain_rows
  drain_rows-Ran [] c w d = (cc, cc)
  drain_rows-Ran (r ∷ rows) c w d =
      let (b, u, d1, d2) = bind-eq-done (process_row svc lib maxlen r w) _ d in
      (b, u, d1, drain_rows-Ran rows (counted b c) u d2)

  pub process_row-Frame :
      (r : OutboxRow) (w : World E) {b : Bool} {u : World E}
      → process_row svc lib maxlen r w ≡ done b u
      → Frame w u
  process_row-Frame r w d =
      Keeps-done (Frame w) _ d ((process_row-Framed svc lib maxlen w r).keeps w (Frame-refl w))

  -- Every row is counted once, as drained or as failed.
  pub Ran-counts :
      (rows : List OutboxRow) (c : Counts) (w : World E) (c' : Counts) (v : World E)
      → Ran rows c w c' v
      → c'.0 + c'.1 ≡ c.0 + c.1 + length rows
  Ran-counts [] c w c' v run =
      omega (arith, ap (λ (x : Counts). x.0) run.0, ap (λ (x : Counts). x.1) run.0)
  Ran-counts (r ∷ rows) c w c' v run =
      let (b, u, d, rest) = run in
      omega (arith, counted-sum b c, Ran-counts rows (counted b c) u c' v rest)

  -- A row that settles was updated, under its key.
  Settled-update :
      (r : OutboxRow) (w : World E) (b : Bool) (u : World E)
      → Settled svc lib maxlen r w b u
      → (f : OutboxRow → OutboxRow) × ((x : OutboxRow) → (f x).outbox_id ≡ x.outbox_id)
        × (u.live.outbox ≡ update_outbox r.outbox_id f w.live.outbox)
  unfolding published failed
  Settled-update r w true u (rid, p) = (published w.ctx.now rid, λ x. refl, p.outbox)
  Settled-update r w false u (e, same) =
      (failed w.ctx.now (error_text svc lib maxlen e), λ x. refl, ap (λ (db : Db). db.outbox) same)

  -- The rows that are still to come stay chosen.
  pub still-IsChosen :
      (r : OutboxRow) (rows : List OutboxRow) (w : World E) (b : Bool) (u : World E)
      → All (λ x. apart r x ≡ true) rows
      → Settled svc lib maxlen r w b u
      → All (IsChosen w.live.outbox) rows
      → All (IsChosen u.live.outbox) rows
  still-IsChosen r rows w b u others settled =
      let (f, key, same) = Settled-update r w b u settled in
      All_map_both (λ x. apart r x ≡ true) (IsChosen w.live.outbox) (IsChosen u.live.outbox) rows
        (λ x other chosen.
          subst (λ table. IsChosen table x) (sym same)
            (update_outbox-IsChosen r.outbox_id f w.live.outbox x key (not-true _ other) chosen))
        others

  -- What the two updates of a row keep: `L` of the outbox and of the committed copies.
  pub record Kept (L : List OutboxRow → List Copy → Type 0) : Type 0 where
    pub more_copies :
        (table : List OutboxRow) (d d' : List Copy)
        → ((c : Copy) → In c d → In c d')
        → L table d
        → L table d'
    pub publish :
        (table : List OutboxRow) (d : List Copy) (r : OutboxRow) (now : ℕ) (rid : RedisId)
        → IsChosen table r
        → In (copy_for svc lib maxlen r rid) d
        → L table d
        → L (update_outbox r.outbox_id (published now rid) table) d
    pub fail :
        (table : List OutboxRow) (d : List Copy) (r : OutboxRow) (now : ℕ) (err : String)
        → IsChosen table r
        → L table d
        → L (update_outbox r.outbox_id (failed now err) table) d

  module _ (L : List OutboxRow → List Copy → Type 0) (kept : Kept L) where
    -- Of what a transaction sees.
    abbrev pub Live : World E → Type 0
    Live w = L w.live.outbox w.hub.durable

    pub Live-Settled :
        (r : OutboxRow) (w : World E) (b : Bool) (u : World E)
        → IsChosen w.live.outbox r
        → Settled svc lib maxlen r w b u
        → Frame w u
        → Live w
        → Live u
    Live-Settled r w true u chosen (rid, p) frame l =
        subst (λ table. L table u.hub.durable) (sym p.outbox)
          (kept.publish w.live.outbox u.hub.durable r w.ctx.now rid chosen p.indexed
            (kept.more_copies w.live.outbox w.hub.durable u.hub.durable frame.grows l))
    Live-Settled r w false u chosen (e, same) frame l =
        subst (λ (db : Db). L db.outbox u.hub.durable) (sym same)
          (kept.fail w.live.outbox u.hub.durable r w.ctx.now (error_text svc lib maxlen e) chosen
            (kept.more_copies w.live.outbox w.hub.durable u.hub.durable frame.grows l))

    -- A batch keeps it, row by row.
    pub Ran-Live :
        (rows : List OutboxRow) (c : Counts) (w : World E) (c' : Counts) (v : World E)
        → HasKey rows
        → All (IsChosen w.live.outbox) rows
        → Ran rows c w c' v
        → Live w
        → Live v
    Ran-Live [] c w c' v k chosen run l = subst Live (sym run.1) l
    Ran-Live (r ∷ rows) c w c' v k chosen run l =
        let (b, u, d, rest) = run in
        let settled : Settled svc lib maxlen r w b u = process_row-Settled svc lib maxlen r w d in
        Ran-Live rows (counted b c) u c' v k.1 (still-IsChosen r rows w b u k.0 settled chosen.1)
          rest (Live-Settled r w b u chosen.0 settled (process_row-Frame r w d) l)
