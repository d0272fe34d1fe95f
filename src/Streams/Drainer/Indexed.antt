-- ===== src/Streams/Drainer/Indexed.antt =====
-- No row is committed as published before its message is in `event_id_to_redis`, committed.
use mathlib.Core.Path.{subst}
use aslan_core.Base.{ℕ, zero, suc, Bool, true, false, some, List, ◌≡◌, sym, if◌then◌else◌, All}
use aslan_core.Base.Sort.{In, All_map, All_map_both}
use aslan_core.Action.{Action, pure, raise, state, Keeps, Keeps-bind}
use aslan_core.Result.{cancelled_error}
use aslan_core.Audit.Context.{set_actor, current_actor}
use aslan_core.Streams.Ids.{RedisId}
use aslan_core.Streams.Services.{Services}
use aslan_core.Streams.Reconcile.{Copy}
use aslan_core.Streams.Outbox.{OutboxRow, World, sql, published, failed}
use aslan_core.Streams.Outbox.Laws.{state-put_back, All-update_outbox, All-update_outbox_to}
use aslan_core.Streams.Outbox.Selected.{HasKey, Sole}
use aslan_core.Streams.Row.{Stdlib}
use aslan_core.Streams.Row.Frame.{Frame-refl, sql-Frame}
use aslan_core.Streams.Drainer.{
  drain_session, refresh_gauge, drain_once, drain_loop, drain_outbox, drainer_actor,
}
use aslan_core.Streams.Drainer.Ran.{Kept}
use aslan_core.Streams.Drainer.Session.{Safe, Frame-Safe, drain_session-Safe}

some_inj : {a b : RedisId} → some a ≡ some b → a ≡ b
some_inj e = cc

module _ {E : Type 0} (svc : Services E) (lib : Stdlib) (maxlen : ℕ) where
  module _ (L : List OutboxRow → List Copy → Type 0) (kept : Kept svc lib maxlen L) where
    abbrev SafeWorld : World E → Type 0
    SafeWorld = Safe svc lib maxlen L kept

    refresh_gauge-Safe : Keeps SafeWorld (refresh_gauge svc lib maxlen)
    unfolding refresh_gauge
    refresh_gauge-Safe =
        Keeps-bind SafeWorld (sql svc) _
          (λ w s.
            Frame-Safe svc lib maxlen L kept w (state (sql svc w))
              (sql-Frame svc w w (Frame-refl w)) s)
          (λ _ v s. s)

    drain_once-Safe : (n : ℕ) → Keeps SafeWorld (drain_once svc lib maxlen n)
    unfolding drain_once
    drain_once-Safe n =
        Keeps-bind SafeWorld (drain_session svc lib maxlen n) _
          (drain_session-Safe svc lib maxlen L kept n) (λ _. refresh_gauge-Safe)

    unless-Safe :
        (once : Bool) (m : Action (World E) (Unit {0}))
        → Keeps SafeWorld m
        → Keeps SafeWorld (if once then pure tt else m)
    unless-Safe true m k = λ w s. s
    unless-Safe false m k = k

    drain_loop-Safe :
        (n : ℕ) (once : Bool) (batches : ℕ)
        → Keeps SafeWorld (drain_loop svc lib maxlen n once batches)
    unfolding drain_loop
    drain_loop-Safe n once zero =
        Keeps-bind SafeWorld (drain_once svc lib maxlen n) _ (drain_once-Safe n)
          (λ _. unless-Safe once (raise cancelled_error) (λ w s. s))
    drain_loop-Safe n once (suc batches) =
        Keeps-bind SafeWorld (drain_once svc lib maxlen n) _ (drain_once-Safe n) (λ _.
          unless-Safe once (drain_loop svc lib maxlen n once batches)
            (drain_loop-Safe n once batches))

    pub drain_outbox-Safe :
        (n : ℕ) (once : Bool) (batches : ℕ)
        → Keeps SafeWorld (drain_outbox svc lib maxlen n once batches)
    unfolding drain_outbox
    drain_outbox-Safe n once batches w s =
        subst SafeWorld
          (sym (
            state-put_back
              (λ (v : World E). record v { ctx = set_actor (current_actor w.ctx) v.ctx })
              (drain_loop svc lib maxlen n once batches
                (record w { ctx = set_actor (some (drainer_actor)) w.ctx }))))
          (drain_loop-Safe n once batches
            (record w { ctx = set_actor (some (drainer_actor)) w.ctx }) s)

  -- A row that has a message id has it in the index.
  pub record IsIndexed (durable : List Copy) (r : OutboxRow) : Type 0 where
    pub copy :
        (rid : RedisId)
        → r.redis_message_id ≡ some rid
        → In (record { event_id = r.event_id; stream_name = r.stream_name; rid = rid }) durable

  abbrev pub AllIndexed : List OutboxRow → List Copy → Type 0
  AllIndexed table durable = All (IsIndexed durable) table

  AllIndexed-Kept : Kept svc lib maxlen AllIndexed
  unfolding published failed
  AllIndexed-Kept = record {
    more_copies = λ table d d' grows.
        All_map (IsIndexed d) (IsIndexed d') table
          (λ r i. record { copy = λ rid e. grows _ (i.copy rid e) });
    publish = λ table d r now rid chosen there all.
        All-update_outbox_to (λ x. IsIndexed d x × Sole r x) (IsIndexed d) r.outbox_id
          (published now rid) table
          (λ x same p. record {
            copy = λ id e.
                let renamed : In
                    (record { event_id = r.event_id; stream_name = r.stream_name; rid = id }) d =
                  subst
                    (λ q.
                      In (record { event_id = r.event_id; stream_name = r.stream_name; rid = q }) d)
                    (some_inj e) there in
                subst
                  (λ (y : OutboxRow).
                    In (record { event_id = y.event_id; stream_name = y.stream_name; rid = id }) d)
                  (sym (p.1 same)) renamed;
          })
          (λ x p. p.0)
          (All_map_both (IsIndexed d) (Sole r) (λ x. IsIndexed d x × Sole r x) table
            (λ x i s. (i, s)) all chosen.sole);
    fail = λ table d r now err chosen.
        All-update_outbox (IsIndexed d) r.outbox_id (failed now err) table
          (λ x same i. record { copy = i.copy });
  }

  -- If no two rows of the committed outbox have the same key, and each that has a message id has it in
  -- the committed `event_id_to_redis`, both are so after `drain_outbox`, whether it returns or raises,
  -- whatever calls and statements fail in it.
  pub drain_outbox-AllIndexed :
      (n : ℕ) (once : Bool) (batches : ℕ) (w : World E)
      → HasKey w.saved.outbox
      → AllIndexed w.saved.outbox w.hub.durable
      → let v = state (drain_outbox svc lib maxlen n once batches w) in
        HasKey v.saved.outbox × AllIndexed v.saved.outbox v.hub.durable
  drain_outbox-AllIndexed n once batches w key all =
      drain_outbox-Safe AllIndexed AllIndexed-Kept n once batches w (key, all)
