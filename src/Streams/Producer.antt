-- ===== src/Streams/Producer.antt =====
-- `StreamProducer` of streams/producer.py: publish and publish_many, which attach rows of the outbox
-- and one audit row to the transaction of their caller. Metrics and traces are not modelled.
pub mod Unique
pub mod Added
pub mod Checks
pub mod Atomic
use aslan_core.Base.{
  ℕ, suc, ◌+◌, String, Bool, true, false, not, ◌&&◌, ◌||◌, Option, none, some, List, [], ◌∷◌, ◌++◌,
  ◌==◌, str_eq, length, take, map, if◌then◌else◌, is_none,
}
use aslan_core.Base.Sort.{sort_by}
use aslan_core.Action.{
  Action, Outcome, done, raised, pure, raise, lift, put_back, bind, ◌>>=◌, ◌>>◌,
}
use aslan_core.Result.{
  Error, Result, ok, err, value_error, stream_event_id_conflict, unknown_event_kind,
}
use aslan_core.Json.{ℤ, Json, Items, nil, cons, Fields, end, field, str, int, num, arr}
use aslan_core.Audit.Context.{Actor, Context, current_actor}
use aslan_core.Audit.Recorder.{
  AuditRecord, Event, AuditCols, record_event, assert_actor_or_strict_raise,
}
use aslan_core.Streams.Outbox.{OutboxRow, Db}
use aslan_core.Timeseries.Payload.{str_le}

-- `StreamEvent` of streams/events.py; `kind` is the field of its subclasses, `rest` holds the others and
-- `produced_at`, which the producer only dumps.
pub record StreamEvent : Type 0 where
  pub schema_version : ℤ
  pub event_id : String
  pub producer_run_id : ℕ
  pub source_id : String
  pub actor_id : Option String
  pub actor_kind : Option String
  pub traceparent : Option String
  pub request_id : Option ℕ
  pub kind : Option String
  pub rest : Fields

-- The transaction of the caller, with the sequence of the key, the rows that the foreign keys of the
-- outbox refer to, and the client's clock.
pub record Publication : Type 0 where
  pub ctx : Context
  pub live : Db
  pub saved : Db
  pub next_outbox_id : ℕ
  pub runs : List ℕ
  pub sources : List String
  pub clock : ℕ

-- `STREAM_FOR_EVENT_KIND`
abbrev pub stream_for_event_kind : String → Option String
stream_for_event_kind kind =
    if str_eq kind "filing.new"
    then some "aslan.kap.filings.new"
    else if str_eq kind "filing.amended"
    then some "aslan.kap.filings.amended"
    else if str_eq kind "observation.batch"
    then some "aslan.evds.observations.new"
    else if str_eq kind "entity.created"
    then some "aslan.entity.created"
    else none

abbrev lookup_kind : String → Option String → Result String
lookup_kind kind none = err (unknown_event_kind kind)
lookup_kind kind (some stream) = ok stream

-- `_resolve_stream`; `str(None)` is "None".
unfoldable pub resolve_stream : StreamEvent → Option String → Result String
resolve_stream event (some explicit) = ok explicit
resolve_stream event none = elim (event.kind) [
  | none ↦ err (unknown_event_kind "None")
  | some kind ↦ lookup_kind kind (stream_for_event_kind kind)
]

abbrev pub add_stream : Result String → Result (List String) → Result (List String)
add_stream (err e) rest = err e
add_stream (ok stream) (err e) = err e
add_stream (ok stream) (ok streams) = ok (stream ∷ streams)

unfoldable pub resolve_streams : List StreamEvent → Option String → Result (List String)
resolve_streams [] stream = ok []
resolve_streams (event ∷ events) stream =
    add_stream (resolve_stream event stream) (resolve_streams events stream)

-- The phase before the batch touches the database: the first event whose id was seen.
abbrev seen : String → List String → Bool
seen eid [] = false
seen eid (other ∷ ids) = if str_eq other eid then true else seen eid ids

unfoldable pub first_duplicate : List StreamEvent → List String → Option String
first_duplicate [] ids = none
first_duplicate (event ∷ events) ids =
    let rest = first_duplicate events (event.event_id ∷ ids) in
    if seen event.event_id ids then some event.event_id else rest

abbrev known_id : ℕ → List ℕ → Bool
known_id n [] = false
known_id n (m ∷ ns) = if m == n then true else known_id n ns

unfoldable pub has_event : String → List OutboxRow → Bool
has_event eid [] = false
has_event eid (r ∷ rows) =
    let rest = has_event eid rows in if str_eq r.event_id eid then true else rest

-- `x if x else None` of an optional text
abbrev non_empty : Option String → Option String
non_empty none = none
non_empty (some s) = if str_eq s "" then none else some s

-- `stream or "<resolve-per-event>"`
abbrev stream_or : Option String → String
stream_or none = "<resolve-per-event>"
stream_or (some s) = if str_eq s "" then "<resolve-per-event>" else s

-- `sorted(set(…))`
abbrev set_of : List String → List String
set_of [] = []
set_of (s ∷ streams) = let rest = set_of streams in if seen s rest then rest else s ∷ rest

abbrev str_items : List String → Items
str_items [] = nil
str_items (s ∷ texts) = cons (str s) (str_items texts)

-- What the producer calls elsewhere: `model_dump` of Pydantic, and the traceparent of the active span.
pub record Producer : Type 0 where
  pub ingestion_run_id : ℕ
  pub model_dump : StreamEvent → Fields
  pub inject_traceparent : Option String

module _ (p : Producer) where
  abbrev pub with_actor : Option Actor → StreamEvent → StreamEvent
  with_actor none event = event
  with_actor (some actor) event =
      if is_none event.actor_id
      then record event { actor_id = some actor.actor_id; actor_kind = some actor.actor_kind }
      else event

  abbrev pub with_traceparent : StreamEvent → StreamEvent
  with_traceparent event =
      if is_none event.traceparent
      then record event { traceparent = p.inject_traceparent }
      else event

  -- `_stamp`
  unfoldable pub stamp : Option Actor → StreamEvent → StreamEvent
  stamp actor event =
      with_traceparent (with_actor actor (record event { producer_run_id = p.ingestion_run_id }))

  abbrev cols_of : Option Actor → Option ℕ → AuditCols
  cols_of none request_id = record {
    actor_id = none;
    actor_kind = none;
    client_ip = none;
    user_agent = none;
    request_id = request_id;
  }
  cols_of (some actor) request_id = record {
    actor_id = some actor.actor_id;
    actor_kind = some actor.actor_kind;
    client_ip = non_empty actor.client_ip;
    user_agent = actor.user_agent;
    request_id = request_id;
  }

  -- The row that is added to the session.
  unfoldable pub outbox_row : StreamEvent → String → Publication → OutboxRow
  unfolding current_actor
  outbox_row event stream s = record {
    outbox_id = s.next_outbox_id;
    stream_name = stream;
    event_id = event.event_id;
    schema_version = event.schema_version;
    payload = p.model_dump event;
    producer_run_id = event.producer_run_id;
    source_id = event.source_id;
    created_at = s.clock;
    published_at = none;
    redis_message_id = none;
    publish_attempts = 0;
    last_attempt_at = none;
    last_error = none;
    cols = cols_of (current_actor s.ctx) event.request_id;
  }

  -- The UNIQUE constraint and the two foreign keys: an `IntegrityError`.
  unfoldable pub violates : StreamEvent → Publication → Bool
  unfolding has_event
  violates event s =
      has_event event.event_id s.live.outbox
      || (not (known_id event.producer_run_id s.runs) || not (seen event.source_id s.sources))

  abbrev pub add_row : OutboxRow → Publication → Publication
  add_row r s = record s {
    live = record (s.live) { outbox = s.live.outbox ++ r ∷ [] };
    next_outbox_id = suc s.next_outbox_id;
  }

  -- `_insert_outbox`: a violation rolls the session back. The sequence moves on all the same.
  unfoldable pub insert_outbox : StreamEvent → String → Action Publication ℕ
  insert_outbox event stream s =
      if violates event s
      then raised (stream_event_id_conflict event.event_id stream)
          (record s { live = s.saved; next_outbox_id = suc s.next_outbox_id })
      else done s.next_outbox_id (add_row (outbox_row event stream s) s)

  abbrev audit_of : Fields → Fields → AuditRecord
  audit_of target_pk metadata = record {
    operation = "stream.publish";
    target_schema = "streams";
    target_table = "outbox";
    target_pk = target_pk;
    before = none;
    after = none;
    metadata = metadata;
    ingestion_run_id = some p.ingestion_run_id;
  }

  -- `getattr(stamped, "kind", "stream.event")`
  abbrev kind_of : Option String → String
  kind_of none = "stream.event"
  kind_of (some kind) = kind

  abbrev pub publish_record : StreamEvent → String → ℕ → AuditRecord
  publish_record event stream oid = audit_of (field "outbox_id" (num oid) end) (
      field "event_id" (str event.event_id) (
        field "stream_name" (str stream) (
          field "schema_version" (int event.schema_version)
            (field "kind" (str (kind_of event.kind)) (field "outbox_id" (num oid) end)))))

  abbrev first_of : List ℕ → ℕ
  first_of [] = 0
  first_of (oid ∷ ids) = oid

  abbrev pub publish_many_record : List StreamEvent → List String → List ℕ → AuditRecord
  publish_many_record events streams ids =
      audit_of (field "batch_first_outbox_id" (num (first_of ids)) end) (
        field "event_count" (num (length events)) (
          field "event_ids"
            (arr (str_items (map (λ (e : StreamEvent). e.event_id) (take 100 events))))
            (field "streams" (arr (str_items (take 20 (sort_by str_le (set_of streams))))) end)))

  abbrev pub with_events : Publication → List Event → Publication
  with_events s events = record s { live = record (s.live) { events = events } }

  unfoldable pub audit_publish : AuditRecord → Action Publication (Unit {0})
  audit_publish r s = put_back (with_events s) (record_event s.ctx r s.live.events)

  -- The call of `assert_actor_or_strict_raise`.
  unfoldable pub assert_actor : Action Publication (Unit {0})
  assert_actor s = assert_actor_or_strict_raise s.ctx s

  unfoldable pub publish : StreamEvent → Option String → Action Publication ℕ
  publish event stream = do
    resolved ← lift (resolve_stream event stream)
    assert_actor
    stamped ← (λ s. done (stamp (current_actor s.ctx) event) s)
    oid ← insert_outbox stamped resolved
    audit_publish (publish_record stamped resolved oid)
    pure oid

  -- One INSERT for each stream and event; `zip` is strict.
  unfoldable pub insert_all : List String → List StreamEvent → Action Publication (List ℕ)
  insert_all [] [] = pure []
  insert_all [] (event ∷ events) = raise value_error
  insert_all (stream ∷ streams) [] = raise value_error
  insert_all (stream ∷ streams) (event ∷ events) = do
    oid ← insert_outbox event stream
    ids ← insert_all streams events
    pure (oid ∷ ids)

  abbrev reject_duplicate : Option String → Option String → Action Publication (Unit {0})
  reject_duplicate none stream = pure tt
  reject_duplicate (some eid) stream = raise (stream_event_id_conflict eid (stream_or stream))

  -- What comes before the first INSERT: no duplicate, an actor, and a stream for each event.
  unfoldable pub check_batch : List StreamEvent → Option String → Action Publication (List String)
  check_batch events stream = do
    reject_duplicate (first_duplicate events []) stream
    assert_actor
    lift (resolve_streams events stream)

  -- From the first phase on.
  unfoldable pub publish_batch : List StreamEvent → Option String → Action Publication (List ℕ)
  publish_batch events stream = do
    streams ← check_batch events stream
    stamped ← (λ s. done (map (stamp (current_actor s.ctx)) events) s)
    ids ← insert_all streams stamped
    audit_publish (publish_many_record stamped streams ids)
    pure ids

  unfoldable pub publish_many : List StreamEvent → Option String → Action Publication (List ℕ)
  publish_many [] stream = pure []
  publish_many (event ∷ events) stream = publish_batch (event ∷ events) stream
