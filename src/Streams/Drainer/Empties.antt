-- ===== src/Streams/Drainer/Empties.antt =====
-- The outbox empties: a daemon that is not disturbed publishes every waiting row, a batch at a time.
use mathlib.Core.Path.{subst}
use aslan_core.Base.{
  ℕ, zero, suc, ◌-◌, ◌*◌, ◌≤◌, Bool, true, false, some, List, ◌≡◌, refl, sym, ap, ◌∙◌, ltb, is_none,
  if◌then◌else◌, arith,
}
use aslan_core.Action.{
  Action, Outcome, pure, bind, state, put_back, Keeps-done, Total, Total-map, Total-bind,
  Total-eq-done, Total-put_back, Total-state, ◌>>◌,
}
use aslan_core.Audit.Context.{Actor, Context, current_actor, set_actor}
use aslan_core.Audit.Recorder.{AuditRecord, Event, record_event}
use aslan_core.Streams.Services.{Services}
use aslan_core.Streams.Outbox.{World, count_pending}
use aslan_core.Streams.Outbox.Laws.{state-put_back}
use aslan_core.Streams.Outbox.Selected.{HasKey}
use aslan_core.Streams.Row.{Stdlib}
use aslan_core.Streams.Row.Frame.{Frame, Frame-refl}
use aslan_core.Streams.Drainer.{
  Batch, drain_one_batch, drained_record, with_events, audit_batch, commit, rolled_back,
  drain_session, refresh_gauge, drain_once, drain_loop, drain_outbox, drainer_actor,
}
use aslan_core.Streams.Drainer.Session.{drain_one_batch-Framed}
use aslan_core.Streams.Drainer.Progress.{NeverFails, Anything}
use aslan_core.Streams.Drainer.Drains.{next, last, Batched, drain_one_batch-Total}

module _ {E : Type 0} (svc : Services E) (fair : NeverFails svc) (lib : Stdlib) (maxlen : ℕ) where
  -- What the rest of the transaction of a batch leaves.
  record Same (w v : World E) : Type 0 where
    pub outbox : v.live.outbox ≡ w.live.outbox
    pub ctx : v.ctx ≡ w.ctx

  if-Total :
      (P : Unit {0} → World E → Type 0) (b : Bool) (m : Action (World E) (Unit {0})) (w : World E)
      → Total P (m w)
      → P tt w
      → Total P ((if b then m else pure tt) w)
  if-Total P true m w t p = t
  if-Total P false m w t p = p

  record_event-Total :
      (c : Context) (r : AuditRecord) (events : List Event)
      → is_none (current_actor c) ≡ false
      → Total Anything (record_event c r events)
  unfolding record_event
  record_event-Total c r events set = rw (set, Total) tt

  audit_batch-Total :
      (b : Batch) (w : World E)
      → is_none (current_actor w.ctx) ≡ false
      → Total (λ u v. Same w v) (audit_batch svc lib maxlen b w)
  unfolding audit_batch
  audit_batch-Total b w set =
      if-Total (λ u v. Same w v) (ltb 0 b.drained) _ w
        (Total-bind (λ u v. Same w v) (λ u v. Same w v)
          (put_back (with_events svc lib maxlen w) emitted) _
          (Total-put_back (λ u v. Same w v) (with_events svc lib maxlen w) emitted
            (Total-map Anything (λ u events. Same w (with_events svc lib maxlen w events)) emitted
              (λ u events t. record { outbox = refl; ctx = refl })
              (record_event-Total w.ctx (drained_record svc lib maxlen b) w.live.events set)))
          (λ u v same.
            last svc fair lib maxlen (λ u s. Same w s) v
              (λ a h. record { outbox = same.outbox; ctx = same.ctx })))
        (record { outbox = refl; ctx = refl })
    where
      emitted : Outcome (List Event) (Unit {0})
      emitted = record_event w.ctx (drained_record svc lib maxlen b) w.live.events

  -- The batch is committed.
  abbrev Committed : ℕ → World E → World E → Type 0
  Committed n w v =
      (count_pending v.saved.outbox ≡ count_pending w.saved.outbox - n)
      × HasKey v.saved.outbox
      × (v.ctx ≡ w.ctx)

  finish-Total :
      (n : ℕ) (b : Batch) (w v : World E)
      → is_none (current_actor v.ctx) ≡ false
      → count_pending v.live.outbox ≡ count_pending w.saved.outbox - n
      → HasKey v.live.outbox
      → v.ctx ≡ w.ctx
      → Total (λ u s. Committed n w s) ((audit_batch svc lib maxlen b >> commit svc lib maxlen) v)
  finish-Total n b w v set count key ctx =
      Total-bind (λ u s. Same v s) (λ u s. Committed n w s) (audit_batch svc lib maxlen b v) _
        (audit_batch-Total b v set)
        (λ u s same.
          next svc fair lib maxlen (λ u s. Committed n w s) _ s
            (λ h. (
              ap count_pending same.outbox ∙ count,
              subst HasKey (sym same.outbox) key,
              same.ctx ∙ ctx,
            )))

  drain_session-Total :
      (n : ℕ) (w : World E)
      → is_none (current_actor w.ctx) ≡ false
      → HasKey w.saved.outbox
      → Total (λ u v. Committed n w v) (drain_session svc lib maxlen n w)
  unfolding drain_session
  drain_session-Total n w set key =
      let start : World E = rolled_back svc lib maxlen w in
      let (b, v, d, batched) =
        Total-eq-done (λ b v. Batched svc fair lib maxlen n start v)
          (drain_one_batch svc lib maxlen n start)
          (drain_one_batch-Total svc fair lib maxlen n start key) in
      let frame : Frame start v =
        Keeps-done (Frame start) _ d
          ((drain_one_batch-Framed svc lib maxlen start n).keeps start (Frame-refl start)) in
      Total-put_back (λ u s. Committed n w s) (rolled_back svc lib maxlen)
        (bind (drain_one_batch svc lib maxlen n start)
          (λ b. audit_batch svc lib maxlen b >> commit svc lib maxlen))
        (subst
          (λ o.
            Total (λ u s. Committed n w s)
              (bind o (λ b. audit_batch svc lib maxlen b >> commit svc lib maxlen)))
          (sym d)
          (finish-Total n b w v (subst (λ c. is_none (current_actor c) ≡ false) (sym frame.ctx) set)
            batched.0 batched.1 frame.ctx))

  refresh_gauge-Total :
      (n : ℕ) (w v : World E)
      → Committed n w v
      → Total
          (λ u s. Committed n w s × (s.gauge ≡ some (count_pending s.saved.outbox)))
          (refresh_gauge svc lib maxlen v)
  unfolding refresh_gauge
  refresh_gauge-Total n w v c =
      next svc fair lib maxlen
        (λ u s. Committed n w s × (s.gauge ≡ some (count_pending s.saved.outbox))) _ v
        (λ h. (c, refl))

  pub drain_once-Total :
      (n : ℕ) (w : World E)
      → is_none (current_actor w.ctx) ≡ false
      → HasKey w.saved.outbox
      → Total
          (λ u s. Committed n w s × (s.gauge ≡ some (count_pending s.saved.outbox)))
          (drain_once svc lib maxlen n w)
  unfolding drain_once
  drain_once-Total n w set key =
      Total-bind (λ u v. Committed n w v)
        (λ u s. Committed n w s × (s.gauge ≡ some (count_pending s.saved.outbox)))
        (drain_session svc lib maxlen n w) _ (drain_session-Total n w set key)
        (λ u v c. refresh_gauge-Total n w v c)

  -- The daemon, cancelled after some further batches.
  drain_loop-empties :
      (n batches : ℕ) (w : World E)
      → is_none (current_actor w.ctx) ≡ false
      → HasKey w.saved.outbox
      → count_pending (state (drain_loop svc lib maxlen n false batches w)).saved.outbox
        ≡ count_pending w.saved.outbox - suc batches * n
  unfolding drain_loop
  drain_loop-empties n zero w set key =
      Total-state After (λ s. count_pending s.saved.outbox ≡ count_pending w.saved.outbox - 1 * n)
        (drain_once svc lib maxlen n w) _ (drain_once-Total n w set key)
        (λ a s p. omega (arith, p.0.0))
    where
      After : Unit {0} → World E → Type 0
      After u s = Committed n w s × (s.gauge ≡ some (count_pending s.saved.outbox))
  drain_loop-empties n (suc batches) w set key =
      Total-state After
        (λ s. count_pending s.saved.outbox ≡ count_pending w.saved.outbox - suc (suc batches) * n)
        (drain_once svc lib maxlen n w) _ (drain_once-Total n w set key)
        (λ a s p.
          let rest =
            drain_loop-empties n batches s
              (subst (λ c. is_none (current_actor c) ≡ false) (sym p.0.2) set) p.0.1 in
          omega (arith, rest, p.0.0))
    where
      After : Unit {0} → World E → Type 0
      After u s = Committed n w s × (s.gauge ≡ some (count_pending s.saved.outbox))

  -- With `once` the daemon returns after one batch.
  drain_loop-once :
      (n batches : ℕ) (w : World E)
      → is_none (current_actor w.ctx) ≡ false
      → HasKey w.saved.outbox
      → Total
          (λ u s.
            (count_pending s.saved.outbox ≡ count_pending w.saved.outbox - n)
            × (s.gauge ≡ some (count_pending s.saved.outbox)))
          (drain_loop svc lib maxlen n true batches w)
  unfolding drain_loop
  drain_loop-once n batches w set key = by_batches batches
    where
      After : Unit {0} → World E → Type 0
      After u s = Committed n w s × (s.gauge ≡ some (count_pending s.saved.outbox))

      Fewer : Unit {0} → World E → Type 0
      Fewer u s =
          (count_pending s.saved.outbox ≡ count_pending w.saved.outbox - n)
          × (s.gauge ≡ some (count_pending s.saved.outbox))

      by_batches : (batches : ℕ) → Total Fewer (drain_loop svc lib maxlen n true batches w)
      by_batches zero =
          Total-bind After Fewer (drain_once svc lib maxlen n w) _ (drain_once-Total n w set key)
            (λ u s p. (p.0.0, p.1))
      by_batches (suc k) =
          Total-bind After Fewer (drain_once svc lib maxlen n w) _ (drain_once-Total n w set key)
            (λ u s p. (p.0.0, p.1))

  set_actor-some :
      (a : Actor) (c : Context) → is_none (current_actor (set_actor (some a) c)) ≡ false
  unfolding set_actor current_actor
  set_actor-some a c = refl

  -- In surroundings where no call fails and no row is locked elsewhere, if no two rows of the
  -- committed outbox have the same key: `drain_outbox` with `once` returns, with `n` rows less that
  -- wait, or none, and the gauge at their number; and a daemon that is cancelled after so many batches
  -- of `n` rows that they cover the rows that waited has left none.
  pub drain_outbox-empties :
      (n batches : ℕ) (w : World E)
      → HasKey w.saved.outbox
      → count_pending w.saved.outbox ≤ suc batches * n
      → Total
          (λ u v.
            (count_pending v.saved.outbox ≡ count_pending w.saved.outbox - n)
            × (v.gauge ≡ some (count_pending v.saved.outbox)))
          (drain_outbox svc lib maxlen n true batches w)
        × (count_pending (state (drain_outbox svc lib maxlen n false batches w)).saved.outbox ≡ 0)
  unfolding drain_outbox
  drain_outbox-empties n batches w key enough =
      let started : World E = record w { ctx = set_actor (some drainer_actor) w.ctx } in
      let set = set_actor-some drainer_actor w.ctx in
      let back : World E → World E =
        λ v. record v { ctx = set_actor (current_actor w.ctx) v.ctx } in
      (
        Total-put_back
            (λ u v.
              (count_pending v.saved.outbox ≡ count_pending w.saved.outbox - n)
              × (v.gauge ≡ some (count_pending v.saved.outbox)))
            back (drain_loop svc lib maxlen n true batches started)
            (drain_loop-once n batches started set key),
        ap (λ (v : World E). count_pending v.saved.outbox)
              (state-put_back back (drain_loop svc lib maxlen n false batches started))
            ∙ omega (arith, drain_loop-empties n batches started set key),
      )
