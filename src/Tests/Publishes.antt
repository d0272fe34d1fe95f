-- ===== src/Tests/Publishes.antt =====
-- The producer at concrete inputs.
use aslan_core.Base.{ℕ, String, none, some, List, [], ◌∷◌, ◌≡◌, refl, ◌⊎◌}
use aslan_core.Action.{done, raised, state}
use aslan_core.Result.{ok, stream_event_id_conflict}
use aslan_core.Json.{pos, end}
use aslan_core.Audit.Context.{current_actor}
use aslan_core.Audit.Recorder.{event_of, record_event, assert_actor_or_strict_raise}
use aslan_core.Streams.Outbox.{OutboxRow, Db}
use aslan_core.Streams.Producer.{
  StreamEvent, Publication, Producer, resolve_stream, resolve_streams, first_duplicate, has_event,
  stamp, outbox_row, violates, insert_outbox, audit_publish, assert_actor, publish, insert_all,
  check_batch, publish_batch, publish_many, publish_many_record,
}
use aslan_core.Streams.Producer.Unique.{Distinct, published-Distinct}
use aslan_core.Streams.Producer.Atomic.{Sent, publish_many_lem, publish_many-raised}
use aslan_core.Tests.Sample.{alice, strict}

abbrev producer : Producer
producer = record { ingestion_run_id = 4; model_dump = λ e. end; inject_traceparent = none }

abbrev event : String → StreamEvent
event eid = record {
  schema_version = pos 1;
  event_id = eid;
  producer_run_id = 0;
  source_id = "kap";
  actor_id = none;
  actor_kind = none;
  traceparent = none;
  request_id = none;
  kind = some "filing.new";
  rest = end;
}

abbrev nothing : Db
nothing = record { outbox = []; events = []; own = [] }

abbrev caller : Publication
caller = record {
  ctx = strict;
  live = nothing;
  saved = nothing;
  next_outbox_id = 1;
  runs = 4 ∷ [];
  sources = "kap" ∷ [];
  clock = 9;
}

caller-Distinct : Distinct caller
caller-Distinct =
    (record { key = tt; given = tt; events = tt }, record { key = tt; given = tt; events = tt })

published-Distinct_example :
    Distinct (state (publish producer (event "e1") none caller))
    × Distinct (state (publish_many producer (event "e1" ∷ event "e2" ∷ []) none caller))
published-Distinct_example =
    published-Distinct producer (event "e1") (event "e1" ∷ event "e2" ∷ []) none caller
      caller-Distinct

duplicate :
    publish_many producer (event "e1" ∷ event "e1" ∷ []) (some "s") caller
    ≡ raised (stream_event_id_conflict "e1" "s") caller
unfolding publish_many publish_batch check_batch first_duplicate
duplicate = refl

publish_many-raised_example : (caller ≡ caller) ⊎ (nothing ≡ nothing)
publish_many-raised_example =
    publish_many-raised producer (event "e1" ∷ event "e1" ∷ []) (some "s") caller duplicate

abbrev row : ℕ → String → OutboxRow
row oid eid =
    outbox_row producer (stamp producer (some alice) (event eid)) "aslan.kap.filings.new"
      (record caller { next_outbox_id = oid })

abbrev sent : Publication
sent = record caller {
  live = record {
    outbox = row 1 "e1" ∷ row 2 "e2" ∷ [];
    events =
        event_of (some alice) (
          publish_many_record producer
            (stamp producer (some alice) (event "e1")
              ∷ stamp producer (some alice) (event "e2")
              ∷ [])
            ("aslan.kap.filings.new" ∷ "aslan.kap.filings.new" ∷ []) (1 ∷ 2 ∷ []))
        ∷ [];
    own = [];
  };
  next_outbox_id = 3;
}

both_sent :
    publish_many producer (event "e1" ∷ event "e2" ∷ []) none caller ≡ done (1 ∷ 2 ∷ []) sent
unfolding publish_many publish_batch check_batch first_duplicate assert_actor
    assert_actor_or_strict_raise current_actor resolve_streams resolve_stream insert_all
    insert_outbox violates has_event outbox_row stamp audit_publish record_event event_of
both_sent = refl

publish_many_lem_example :
    (streams : List String) × (rows : List OutboxRow) × (resolve_streams
        (event "e1" ∷ event "e2" ∷ [])
        none
      ≡ ok streams)
    × Sent producer (event "e1" ∷ event "e2" ∷ []) caller streams rows (1 ∷ 2 ∷ []) sent
publish_many_lem_example =
    publish_many_lem producer (event "e1") (event "e2" ∷ []) none caller both_sent
