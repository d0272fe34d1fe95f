-- ===== src/Tests/Deadletters.antt =====
-- The dead letters at concrete inputs: a stream of one entry, of failure 7, whose owner is gone.
use mathlib.Core.Path.{subst}
use aslan_core.Base.{
  ℕ, String, true, false, Option, none, some, List, [], ◌∷◌, ◌≡◌, refl, sym, inl, take, All, str_eq,
  if◌then◌else◌, arith,
}
use aslan_core.Base.Sort.{In}
use aslan_core.Action.{done}
use aslan_core.Result.{ok, ok_inj}
use aslan_core.Json.{ℤ, pos, field, end, str, num}
use aslan_core.Audit.Context.{current_actor}
use aslan_core.Audit.Recorder.{record_event, event_of}
use aslan_core.Streams.Ids.{RedisId, redis_id_increment, redis_id_compare, after}
use aslan_core.Streams.Ids.Order.{IsId, not_after_iff}
use aslan_core.Streams.Services.{Entry, Services}
use aslan_core.Streams.Services.Laws.{IsRedis, in_range}
use aslan_core.Streams.Reconcile.Finds.{Lasts}
use aslan_core.Streams.Deadletter.Orphan.{
  deadletter_stream, is_orphan, first_orphan, search_page, search, search_info,
  find_orphan_in_deadletter_stream,
}
use aslan_core.Streams.Deadletter.Tables.{
  Intent, LogRow, find_letter, in_log, marks, find_intent, delete_intent, conflicts, insert_index,
  find_index, mark_routed,
}
use aslan_core.Streams.Deadletter.Intent.{
  Claim, Ledger, AdoptionResult, reconciled_by_us, acquire_or_adopt_intent, acquire_or_adopt,
  insert_intent, lock_intent, adopt, adopt_stale, is_fresh, reconcile_orphan, settle_orphan,
  indexed, routed, released, audit,
}
use aslan_core.Streams.Deadletter.Adopted.{Adopted, Rescued}
use aslan_core.Streams.Deadletter.Acquired.{acquire_or_adopt_lem}
use aslan_core.Streams.Deadletter.Rescued.{IsLanded, acquire_or_adopt_intent-Rescued}
use aslan_core.Streams.Row.{str_take}
use aslan_core.Streams.Deadletter.Route.{
  Letter, Post, Routing, routing_complete, route_to_deadletter, log_letter, insert_letter, log_row,
  coerce_jsonb_str, route_logged, route_unindexed, capture_redis_lower_bound, claim_intent,
  add_letter, after_xadd, insert_index_row, step_4,
}
use aslan_core.Streams.Deadletter.Route.Owned.{KeyIs}
use aslan_core.Streams.Deadletter.Route.Letters.{IsLog}
use aslan_core.Streams.Deadletter.Route.Completes.{route_to_deadletter_completes}
use aslan_core.Streams.Deadletter.Route.Marked.{IsShared}
use aslan_core.Tests.Sample.{alice, strict}

abbrev rid : RedisId
rid = record { ms = 5; seq = 0 }

abbrev bound : RedisId
bound = record { ms = 4; seq = 0 }

abbrev letter : Entry
letter = record { rid = rid; fields = ("failure_id", "7") ∷ [] }

abbrev server : Services (Unit {0})
server = record {
  xadd = λ n fields maxlen e. (ok rid, e);
  xrevrange = λ n count e. (ok (take count (letter ∷ [])), e);
  xinfo_stream = λ n e. (ok (some rid), e);
  xrange = λ n lo hi count e. (ok (take count (in_range lo hi (letter ∷ []))), e);
  statement = λ e. (ok tt, e);
  locked = λ e oid. false;
  clock = λ e. 7;
}

abbrev letters : Unit {0} → String → List Entry
letters e n = letter ∷ []

some_inj : {a b : RedisId} → ok (some a) ≡ ok (some b) → a ≡ b
some_inj e = cc

server-IsRedis : IsRedis server letters
server-IsRedis = record {
  ids = λ e n. (omega arith, tt);
  ascending = λ e n. (tt, tt);
  xrange_reply = λ e n lo hi count d. sym (ok_inj d);
  info_reply = λ e n d.
      subst (λ v. IsId v × All (λ x. after x.rid v ≡ false) (letter ∷ [])) (some_inj d)
        (omega arith, ((not_after_iff rid rid (omega arith) (omega arith)).1 (omega arith), tt));
  info_empty = λ e n d. absurd (cc);
  no_such_key = λ e n d. absurd (cc);
  has_xinfo = λ e n d. cc;
}

letter-Lasts : Lasts server letters (deadletter_stream "s") letter (λ e. Unit)
letter-Lasts = record {
  there = λ e p. inl refl;
  statement = λ e p. tt;
  xrange = λ m lo hi c e p. tt;
  xinfo = λ m e p. tt;
}

abbrev to_int : String → Option ℤ
to_int v = if str_eq v "7" then some (pos 7) else none

abbrev to_text : RedisId → String
to_text i = "5-0"

is_letter : is_orphan to_int (pos 7) letter ≡ true
unfolding is_orphan
is_letter = refl

abbrev stale : Intent
stale = record {
  failure_id = 7;
  stream_name = "s";
  intent_at = 1;
  redis_lower_bound_id = bound;
  owner_id = "gone";
  owner_heartbeat_at = 1;
}

-- The row of failure 7.
abbrev logged : Option RedisId → Option ℕ → LogRow
logged rid routed_at = record {
  failure_id = 7;
  stream_name = "s";
  group_name = "g";
  original_message_id = "1-0";
  deadletter_stream = "s.deadletter";
  event_id = "e1";
  consumer_name = "c";
  failure_count = pos 3;
  last_error = "E";
  payload_excerpt = "{}";
  routed_at = 1;
  redis_message_id = rid;
  routed_at_redis = routed_at;
}

abbrev before : Ledger (Unit {0})
before = record {
  ctx = record strict { now = 100000000 };
  intents = stale ∷ [];
  log = logged none none ∷ [];
  next_failure_id = 8;
  index = [];
  events = [];
  env = tt;
}

abbrev reconciled : AdoptionResult
reconciled = record { action = reconciled_by_us; lower_bound = none; redis_message_id = some rid }

abbrev after_all : Ledger (Unit {0})
after_all = record before {
  intents = [];
  log = logged (some rid) (some 100000000) ∷ [];
  index = record { failure_id = 7; redis_message_id = rid } ∷ [];
  events =
      event_of (some alice) (record {
        operation = "stream.deadletter_orphan_reconciled";
        target_schema = "streams";
        target_table = "deadletter_log";
        target_pk = field "failure_id" (num 7) end;
        before = none;
        after = none;
        metadata = field "redis_message_id" (str "5-0") (
            field "via" (str "stale_adoption")
              (field "prior_owner" (str "gone") (field "prior_lower_bound" (str "5-0") end)));
        ingestion_run_id = none;
      })
      ∷ [];
}

abbrev mine : Claim (Unit {0})
mine = record {
  to_int = to_int;
  to_text = to_text;
  svc = server;
  elsewhere = λ e rows. rows;
  stream = "s";
  fid = 7;
  me = "me";
  my_bound = bound;
}

acquired : acquire_or_adopt_intent mine before ≡ done (some reconciled) after_all
unfolding acquire_or_adopt insert_intent lock_intent adopt adopt_stale is_fresh reconcile_orphan
    settle_orphan indexed routed released audit find_intent delete_intent insert_index conflicts
    find_index mark_routed find_orphan_in_deadletter_stream search_info search search_page
    first_orphan is_orphan redis_id_increment redis_id_compare after in_range record_event
    current_actor event_of
acquired = refl

found_first : find_intent 7 (stale ∷ []) ≡ some stale
unfolding find_intent
found_first = refl

is_old : is_fresh 100000000 stale ≡ false
unfolding is_fresh
is_old = refl

landed : IsLanded to_int 7 letter stale
landed = (is_letter, omega arith, omega arith, omega arith, omega arith)

acquire_or_adopt_lem_example : Adopted 7 "me" before.log (some reconciled) after_all
acquire_or_adopt_lem_example =
    acquire_or_adopt_lem mine letters server-IsRedis (λ e rows ids. ids) before (omega arith, tt)
      acquired

acquire_or_adopt_intent-Rescued_example : Rescued 7 "me" before.log (some reconciled) after_all
acquire_or_adopt_intent-Rescued_example =
    acquire_or_adopt_intent-Rescued mine letters server-IsRedis letter (λ e. Unit) letter-Lasts
      stale (λ e rows there. there) before landed found_first refl is_old tt acquired

abbrev message : Letter
message = record {
  stream = "s";
  group = "g";
  consumer_name = "c";
  message_id = "1-0";
  event_id = "e1";
  failure_count = pos 3;
  last_error = "E";
  payload_excerpt = "{}";
  owner_id = "me";
}

abbrev next_rid : RedisId
next_rid = record { ms = 6; seq = 0 }

abbrev mail : Post (Unit {0})
mail = record {
  xadd = λ n fields e. (ok next_rid, e);
  xdel = λ n i e. (ok tt, e);
  to_int = to_int;
  to_str = λ i. "3";
  fid_str = λ fid. "7";
  to_text = λ i. "6-0";
  is_json = λ text. true;
  dumps = λ text. text;
}

-- Nothing is logged yet.
abbrev fresh : Ledger (Unit {0})
fresh = record before {
  ctx = record strict { now = 1 };
  intents = [];
  log = [];
  next_failure_id = 7;
}

abbrev sent : Ledger (Unit {0})
sent = record fresh {
  log = logged (some next_rid) (some 1) ∷ [];
  next_failure_id = 8;
  index = record { failure_id = 7; redis_message_id = next_rid } ∷ [];
  events =
      event_of (some alice) (record {
        operation = "stream.deadletter";
        target_schema = "streams";
        target_table = "deadletter_log";
        target_pk = field "failure_id" (num 7) end;
        before = none;
        after = none;
        metadata = field "event_id" (str "e1") (
            field "failure_id" (num 7) (
              field "stream_name" (str "s")
                (field "group_name" (str "g") (field "redis_message_id" (str "6-0") end))));
        ingestion_run_id = none;
      })
      ∷ [];
}

abbrev delivery : Routing (Unit {0})
delivery = record {
  svc = server;
  post = mail;
  elsewhere = λ e rows. rows;
  meanwhile = λ w. w;
  letter = message;
}

routed_letter : route_to_deadletter delivery fresh ≡ done (some (routing_complete next_rid)) sent
unfolding route_to_deadletter log_letter insert_letter find_letter log_row coerce_jsonb_str str_take
    route_logged find_index route_unindexed capture_redis_lower_bound claim_intent acquire_or_adopt
    insert_intent find_intent in_log add_letter after_xadd insert_index_row conflicts indexed
    insert_index released delete_intent step_4 marks routed mark_routed audit record_event
    current_actor event_of
routed_letter = refl

shared : IsShared {E = Unit {0}} (λ w. w)
shared = record { well = λ w log. log; keeps = λ s g m fid w owns. owns }

fresh-IsLog : IsLog fresh
fresh-IsLog = record { given_out = tt; keyed = tt }

route_to_deadletter_completes_example :
    (l : LogRow) × In l sent.log × KeyIs "s" "g" "1-0" l × (l.redis_message_id ≡ some next_rid)
route_to_deadletter_completes_example =
    route_to_deadletter_completes delivery fresh next_rid shared fresh-IsLog routed_letter
