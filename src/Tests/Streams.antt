-- ===== src/Tests/Streams.antt =====
-- The drainer at concrete inputs: a server with one stream, of one entry at most.
use mathlib.Core.Path.{subst}
use aslan_core.Base.{
  suc, ◌+◌, ◌-◌, ◌*◌, ◌≤◌, String, Bool, true, false, Option, none, some, List, [], ◌∷◌, ◌≡◌, refl,
  sym, inl, length, take, All, arith,
}
use aslan_core.Base.Sort.{In, Sorted, sort_by, insert_by}
use aslan_core.Action.{done, state, Total}
use aslan_core.Result.{ok, err, ok_inj, redis_error}
use aslan_core.Json.{null, pos, end}
use aslan_core.Streams.Ids.{RedisId, redis_id_compare, redis_id_increment, after}
use aslan_core.Streams.Ids.Order.{IsId, not_after_iff}
use aslan_core.Streams.Services.{Entry, Services}
use aslan_core.Streams.Services.Laws.{IsRedis, in_range, older}
use aslan_core.Streams.Reconcile.{
  Hub, copy_of, reconcile_unindexed_xadd, scan_info, scan, scan_page, index_page, index_match,
  index_copy, insert_copy, has_copy, copy_eq, capture_stream_lower_bound, lower_of,
}
use aslan_core.Streams.Reconcile.Ends.{reconcile_ends}
use aslan_core.Streams.Reconcile.Finds.{Lasts}
use aslan_core.Streams.Reconcile.Complete.{reconcile_finds}
use aslan_core.Streams.Outbox.{
  OutboxRow, Db, World, select_pending, where_pending, count_pending, pending, update_outbox,
  published, failed, mark_published, mark_failed, insert_own,
}
use aslan_core.Streams.Outbox.Selected.{HasKey}
use aslan_core.Streams.Row.{
  Stdlib, process_row, settle_row, recover_row, publish_row, reconcile_row, xadd_fields, error_text,
}
use aslan_core.Streams.Row.Processed.{Processed, process_row_lem}
use aslan_core.Streams.Drainer.{Batch, drain_one_batch, drain_selected, drain_rows, drain_outbox}
use aslan_core.Streams.Drainer.Counts.{drain_one_batch-counts}
use aslan_core.Streams.Drainer.Indexed.{AllIndexed, drain_outbox-AllIndexed}
use aslan_core.Streams.Drainer.Refines.{Refines, drain_outbox-Refines}
use aslan_core.Streams.Drainer.Progress.{NeverFails}
use aslan_core.Streams.Drainer.Empties.{drain_outbox-empties}
use aslan_core.Tests.Sample.{strict}

abbrev rid : RedisId
rid = record { ms = 5; seq = 0 }

abbrev entry : Entry
entry = record { rid = rid; fields = ("event_id", "e1") ∷ [] }

-- Whether the entry is there.
abbrev stream : Bool → String → List Entry
stream false n = []
stream true n = entry ∷ []

abbrev last : Bool → Option RedisId
last false = none
last true = some rid

-- XADD adds the entry; `lossy` raises all the same.
abbrev server : Services Bool
server = record {
  xadd = λ n fields maxlen e. (ok rid, true);
  xrevrange = λ n count e. (ok (take count (stream e n)), e);
  xinfo_stream = λ n e. (ok (last e), e);
  xrange = λ n lo hi count e. (ok (take count (in_range lo hi (stream e n))), e);
  statement = λ e. (ok tt, e);
  locked = λ e oid. false;
  clock = λ e. 7;
}

abbrev lossy : Services Bool
lossy = record server { xadd = λ n fields maxlen e. (err (redis_error false), true) }

stream_ids : (e : Bool) (n : String) → All (λ x. IsId x.rid) (stream e n)
stream_ids false n = tt
stream_ids true n = (omega arith, tt)

stream_ascending : (e : Bool) (n : String) → Sorted older (stream e n)
stream_ascending false n = tt
stream_ascending true n = (tt, tt)

last_reply :
    (e : Bool) (n : String) (u : RedisId)
    → ok (last e) ≡ ok (some u)
    → IsId u × All (λ x. after x.rid u ≡ false) (stream e n)
last_reply false n u d = absurd (cc)
last_reply true n u d =
    subst (λ v. IsId v × All (λ x. after x.rid v ≡ false) (stream true n)) (some_inj d)
      (omega arith, (rid_last, tt))
  where
    some_inj : {a b : RedisId} → ok (some a) ≡ ok (some b) → a ≡ b
    some_inj e = cc

    rid_last : after rid rid ≡ false
    rid_last = (not_after_iff rid rid (omega arith) (omega arith)).1 (omega arith)

last_empty : (e : Bool) (n : String) → ok (last e) ≡ ok none → stream e n ≡ []
last_empty false n d = refl
last_empty true n d = absurd (cc)

server-IsRedis : IsRedis server stream
server-IsRedis = record {
  ids = stream_ids;
  ascending = stream_ascending;
  xrange_reply = λ e n lo hi count d. sym (ok_inj d);
  info_reply = λ e n {last = u} d. last_reply e n u d;
  info_empty = last_empty;
  no_such_key = λ e n d. absurd (cc);
  has_xinfo = λ e n d. cc;
}

abbrev lib : Stdlib
lib = record {
  dumps = λ j. "{}";
  to_str = λ j. "1";
  format_exc = λ e. "Traceback";
  total_seconds = λ t. null;
}

abbrev row : OutboxRow
row = record {
  outbox_id = 1;
  stream_name = "s";
  event_id = "e1";
  schema_version = pos 1;
  payload = end;
  producer_run_id = 4;
  source_id = "kap";
  created_at = 3;
  published_at = none;
  redis_message_id = none;
  publish_attempts = 0;
  last_attempt_at = none;
  last_error = none;
  cols = record {
    actor_id = none;
    actor_kind = none;
    client_ip = none;
    user_agent = none;
    request_id = none;
  };
}

abbrev table : Db
table = record { outbox = row ∷ []; events = []; own = [] }

abbrev world : World Bool
world = record {
  ctx = strict;
  live = table;
  saved = table;
  hub = record { durable = []; env = false };
  gauge = none;
}

-- After the entry is there, before anything is indexed.
abbrev orphaned : Hub Bool
orphaned = record { durable = []; env = true }

abbrev zero : RedisId
zero = record { ms = 0; seq = 0 }

abbrev found : Hub Bool
found = record { durable = copy_of server "s" "e1" rid ∷ []; env = true }

reconcile_ends_example :
    ¬ (reconcile_unindexed_xadd server "s" "e1" zero orphaned ≡ done false found)
reconcile_ends_example =
    reconcile_ends server stream server-IsRedis "s" "e1" zero orphaned (omega arith)

entry-Lasts : Lasts server stream "s" entry (λ e. e ≡ true)
entry-Lasts = record {
  there = λ e p. rw p (inl refl);
  statement = λ e p. p;
  xrange = λ m lo hi c e p. p;
  xinfo = λ m e p. p;
}

reconciled : reconcile_unindexed_xadd server "s" "e1" zero orphaned ≡ done true found
unfolding reconcile_unindexed_xadd scan_info scan scan_page index_page index_match index_copy
    insert_copy has_copy redis_id_increment redis_id_compare after in_range
reconciled = refl

reconcile_finds_example : In (copy_of server "s" "e1" rid) found.durable
reconcile_finds_example =
    reconcile_finds server stream server-IsRedis "s" "e1" entry refl (omega arith) (λ e. e ≡ true)
      entry-Lasts zero orphaned true (omega arith) (omega arith) refl reconciled

abbrev drained : World Bool
drained = record world {
  live = record table {
    outbox = record row { published_at = some 100; redis_message_id = some rid } ∷ [];
  };
  hub = found;
}

row_drained : process_row server lib 100 row world ≡ done true drained
unfolding process_row settle_row publish_row capture_stream_lower_bound lower_of index_copy
    insert_copy has_copy copy_eq mark_published insert_own update_outbox published xadd_fields
row_drained = refl

process_row_lem_example : Processed server lib 100 row world true drained
process_row_lem_example = process_row_lem server lib 100 row world row_drained

-- The XADD fails and adds the entry all the same: the row stays, and the entry is indexed.
abbrev recovered : World Bool
recovered = record world {
  live = record table {
    outbox =
        record row {
          publish_attempts = 1;
          last_attempt_at = some 100;
          last_error = some "Traceback";
        }
        ∷ [];
  };
  hub = found;
}

row-recovered : process_row lossy lib 100 row world ≡ done false recovered
unfolding process_row settle_row publish_row recover_row reconcile_row capture_stream_lower_bound
    lower_of reconcile_unindexed_xadd scan_info scan scan_page index_page index_match index_copy
    insert_copy has_copy redis_id_increment redis_id_compare after in_range mark_failed
    update_outbox failed error_text
row-recovered = refl

abbrev one_drained : Batch
one_drained = record { drained = 1; oldest_age = pos 4; newest_age = pos 4; failures = 0 }

batch_drained : drain_one_batch server lib 100 2 world ≡ done one_drained drained
unfolding drain_one_batch drain_selected drain_rows select_pending where_pending pending process_row
    settle_row publish_row capture_stream_lower_bound lower_of index_copy insert_copy has_copy
    copy_eq mark_published insert_own update_outbox published xadd_fields sort_by insert_by
batch_drained = refl

drain_one_batch-counts_example :
    (h : Hub Bool) × (one_drained.drained + one_drained.failures
      ≡ length (select_pending 2 (server.locked h.env) world.live.outbox))
    × (one_drained.drained + one_drained.failures ≤ 2)
drain_one_batch-counts_example = drain_one_batch-counts server lib 100 2 world batch_drained

world-HasKey : HasKey world.saved.outbox
world-HasKey = (tt, tt)

world-AllIndexed : AllIndexed server lib 100 world.saved.outbox world.hub.durable
world-AllIndexed = (record { copy = λ id e. absurd (cc) }, tt)

drain_outbox-AllIndexed_example :
    HasKey (state (drain_outbox server lib 100 2 false 3 world)).saved.outbox
    × AllIndexed server lib 100
        (state (drain_outbox server lib 100 2 false 3 world)).saved.outbox
        (state (drain_outbox server lib 100 2 false 3 world)).hub.durable
drain_outbox-AllIndexed_example =
    drain_outbox-AllIndexed server lib 100 2 false 3 world world-HasKey world-AllIndexed

drain_outbox-Refines_example :
    Refines world.saved.outbox (state (drain_outbox lossy lib 100 2 false 3 world)).saved.outbox
drain_outbox-Refines_example = drain_outbox-Refines lossy lib 100 2 false 3 world world-HasKey

server-NeverFails : NeverFails server
server-NeverFails = record {
  statement = λ e. refl;
  xadd = λ n fields maxlen e. (rid, refl);
  xrevrange = λ n count e. (take count (stream e n), refl);
  locked = λ e oid. refl;
}

one_waits : count_pending world.saved.outbox ≤ suc 0 * 2
unfolding count_pending pending
one_waits = omega arith

drain_outbox-empties_example :
    Total
      (λ u v.
        (count_pending v.saved.outbox ≡ count_pending world.saved.outbox - 2)
        × (v.gauge ≡ some (count_pending v.saved.outbox)))
      (drain_outbox server lib 100 2 true 0 world)
    × (count_pending (state (drain_outbox server lib 100 2 false 0 world)).saved.outbox ≡ 0)
drain_outbox-empties_example =
    drain_outbox-empties server server-NeverFails lib 100 2 0 world world-HasKey one_waits
