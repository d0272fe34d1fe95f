-- ===== src/Streams/Drainer.antt =====
-- `_drain_one_batch` and `drain_outbox` of streams/outbox_drainer.py. The duration metric is left out.
-- The daemon runs until it raises or is cancelled: it is cancelled in the sleep after a given number of
-- further batches.
pub mod Ran
pub mod Counts
pub mod Session
pub mod Indexed
pub mod Refines
pub mod Progress
pub mod Drains
pub mod Empties
use aslan_core.Base.{
  ℕ, zero, suc, ◌+◌, ◌-◌, String, Bool, true, false, Option, none, some, List, [], ◌∷◌, ◌++◌, ltb,
  leb, if◌then◌else◌,
}
use aslan_core.Action.{Action, Outcome, done, raised, pure, raise, put_back, ◌>>=◌, ◌>>◌}
use aslan_core.Result.{Error, cancelled_error}
use aslan_core.Json.{ℤ, pos, negsuc, Fields, end, field, num, int}
use aslan_core.Audit.Context.{Actor, Context, set_actor, current_actor}
use aslan_core.Audit.Recorder.{AuditRecord, Event, record_event}
use aslan_core.Streams.Services.{Services}
use aslan_core.Streams.Reconcile.{Copy, Hub, insert_copy}
use aslan_core.Streams.Outbox.{
  OutboxRow, Db, World, select_pending, count_pending, in_hub, sql, change,
}
use aslan_core.Streams.Row.{Stdlib, process_row}

abbrev pub drainer_actor : Actor
drainer_actor = record {
  actor_id = "system:streams.outbox_drainer";
  actor_kind = "system";
  client_ip = none;
  user_agent = none;
  request_id = none;
}

-- The counts and the ages, in microseconds, that a batch returns.
pub record Batch : Type 0 where
  pub drained : ℕ
  pub oldest_age : ℤ
  pub newest_age : ℤ
  pub failures : ℕ

abbrev no_rows : Batch
no_rows = record { drained = 0; oldest_age = pos 0; newest_age = pos 0; failures = 0 }

-- `now - t`
abbrev age : ℕ → ℕ → ℤ
age now t = if leb t now then pos (now - t) else negsuc (t - now - 1)

-- `min` and `max` of the times of creation, from the first row's.
abbrev oldest_of : ℕ → List OutboxRow → ℕ
oldest_of t [] = t
oldest_of t (r ∷ rows) = oldest_of (if ltb r.created_at t then r.created_at else t) rows

abbrev newest_of : ℕ → List OutboxRow → ℕ
newest_of t [] = t
newest_of t (r ∷ rows) = newest_of (if ltb t r.created_at then r.created_at else t) rows

abbrev pub Counts : Type 0
Counts = ℕ × ℕ

-- What a batch returns, of its rows.
abbrev pub batch_of : ℕ → OutboxRow → List OutboxRow → Counts → Batch
batch_of now r rows (d, f) = record {
  drained = d;
  oldest_age = age now (oldest_of r.created_at rows);
  newest_age = age now (newest_of r.created_at rows);
  failures = f;
}

-- `drained += 1` or `failures += 1`
abbrev pub counted : Bool → Counts → Counts
counted true (d, f) = (suc d, f)
counted false (d, f) = (d, suc f)

module _ {E : Type 0} (svc : Services E) (lib : Stdlib) (maxlen : ℕ) where
  unfoldable pub drain_rows : List OutboxRow → Counts → Action (World E) Counts
  drain_rows [] counts = pure counts
  drain_rows (r ∷ rows) counts = do
    drained ← process_row svc lib maxlen r
    drain_rows rows (counted drained counts)

  -- From the rows that were selected on.
  unfoldable pub drain_selected : List OutboxRow → Action (World E) Batch
  drain_selected [] = pure no_rows
  drain_selected (r ∷ rows) = do
    now ← (λ w. done (svc.clock w.hub.env) w)
    counts ← drain_rows (r ∷ rows) (0, 0)
    pure (batch_of now r rows counts)

  unfoldable pub drain_one_batch : ℕ → Action (World E) Batch
  drain_one_batch n = do
    sql svc
    (λ w. drain_selected (select_pending n (svc.locked w.hub.env) w.live.outbox) w)

  abbrev pub drained_record : Batch → AuditRecord
  drained_record b = record {
    operation = "stream.outbox_drained";
    target_schema = "streams";
    target_table = "outbox";
    target_pk = field "batch_drained_count" (num b.drained) end;
    before = none;
    after = none;
    metadata = field "drained_count" (num b.drained) (
        field "oldest_age_s" (lib.total_seconds b.oldest_age) (
          field "newest_age_s" (lib.total_seconds b.newest_age)
            (field "any_failure_count" (num b.failures) end)));
    ingestion_run_id = none;
  }

  abbrev pub with_events : World E → List Event → World E
  with_events w events = record w { live = record (w.live) { events = events } }

  -- `if drained > 0: await audit_record(…)`
  unfoldable pub audit_batch : Batch → Action (World E) (Unit {0})
  audit_batch b =
      if ltb 0 b.drained
      then (do
        (λ w. put_back (with_events w) (record_event w.ctx (drained_record b) w.live.events))
        sql svc)
      else pure tt

  -- The copies that the transaction made become durable with its other rows.
  abbrev pub merge : List Copy → List Copy → List Copy
  merge [] copies = copies
  merge (c ∷ own) copies = merge own (insert_copy c copies)

  abbrev pub committed : World E → World E
  committed w = record w {
    live = record (w.live) { own = [] };
    saved = record (w.live) { own = [] };
    hub = record (w.hub) { durable = merge w.live.own w.hub.durable };
  }

  abbrev pub commit : Action (World E) (Unit {0})
  commit = do sql svc; (λ w. done tt (committed w))

  abbrev pub rolled_back : World E → World E
  rolled_back w = record w { live = w.saved }

  -- `async with session_factory() as session:`, closed with what was not committed rolled back.
  abbrev pub in_session : {A : Type 0} → Action (World E) A → Action (World E) A
  in_session m w = put_back rolled_back (m (rolled_back w))

  unfoldable pub drain_session : ℕ → Action (World E) (Unit {0})
  drain_session n = in_session (do b ← drain_one_batch n; audit_batch b; commit)

  -- The gauge is set from a fresh count.
  unfoldable pub refresh_gauge : Action (World E) (Unit {0})
  refresh_gauge = do
    sql svc
    (λ w. done tt (record w { gauge = some (count_pending w.saved.outbox) }))

  unfoldable pub drain_once : ℕ → Action (World E) (Unit {0})
  drain_once n = do drain_session n; refresh_gauge

  unfoldable pub drain_loop : ℕ → Bool → ℕ → Action (World E) (Unit {0})
  drain_loop n once zero = do drain_once n; (if once then pure tt else raise cancelled_error)
  drain_loop n once (suc batches) = do
    drain_once n
    (let rest = drain_loop n once batches in if once then pure tt else rest)

  -- `finally: set_actor(prev_actor)`
  unfoldable pub drain_outbox : ℕ → Bool → ℕ → Action (World E) (Unit {0})
  drain_outbox n once batches w =
      let prev = current_actor w.ctx in
      put_back (λ (v : World E). record v { ctx = set_actor prev v.ctx })
        (drain_loop n once batches (record w { ctx = set_actor (some drainer_actor) w.ctx }))
