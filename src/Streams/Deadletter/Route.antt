-- ===== src/Streams/Deadletter/Route.antt =====
-- `route_to_deadletter` of streams/deadletter.py, with the steps after the intent. A session begins
-- with `meanwhile`, what other workers have committed since; an exception rolls it back, and the
-- sequence is not rolled back. The metrics and the log lines are left out, and so is the flag
-- `had_lost_branch_recovered`, which no caller sets.
pub mod Owned
pub mod Acquires
pub mod Marked
pub mod Letters
pub mod Completes
use aslan_core.Base.{
  ℕ, suc, ◌+◌, String, Bool, true, false, ◌&&◌, not, Option, none, some, List, [], ◌∷◌, ◌++◌,
  str_eq, if◌then◌else◌,
}
use aslan_core.Action.{Action, Outcome, done, raised, pure, raise, bind, ◌>>=◌, ◌>>◌}
use aslan_core.Result.{Result, redis_error, sqlalchemy_error, other_error}
use aslan_core.Json.{ℤ, Fields, field, end, str, num}
use aslan_core.Audit.Recorder.{AuditRecord}
use aslan_core.Streams.Ids.{RedisId, zero_id}
use aslan_core.Streams.Services.{Entries, Services}
use aslan_core.Streams.Row.{str_take}
use aslan_core.Streams.Deadletter.Orphan.{ask, deadletter_stream}
use aslan_core.Streams.Deadletter.Tables.{
  Intent, LogRow, find_letter, marks, select_routed, delete_index, rid_eq, conflicts, in_log,
  find_index,
}
use aslan_core.Streams.Deadletter.Intent.{
  Claim, Ledger, AdoptionAction, own, reconciled_by_us, abort, AdoptionResult, in_env, audit,
  to_ledger, indexed, routed, released, acquire_or_adopt_intent,
}

-- The arguments.
pub record Letter : Type 0 where
  pub stream : String
  pub group : String
  pub consumer_name : String
  pub message_id : String
  pub event_id : String
  pub failure_count : ℤ
  pub last_error : String
  pub payload_excerpt : String
  pub owner_id : String

pub data RoutingResult : Type 0 where
  routing_complete : RedisId → RoutingResult
  routing_reconciled_by_adoption : RedisId → RoutingResult
  routing_aborted : RoutingResult

-- What the routing calls beside the services: XADD without MAXLEN and XDEL, `int` and `str` of numbers,
-- the text of an id, and the module json.
pub record Post (E : Type 0) : Type 0 where
  pub xadd : String → Entries → E → Result RedisId × E
  pub xdel : String → RedisId → E → Result (Unit {0}) × E
  pub to_int : String → Option ℤ
  pub to_str : ℤ → String
  pub fid_str : ℕ → String
  pub to_text : RedisId → String
  pub is_json : String → Bool
  pub dumps : String → String

-- An exception rolls the session back.
abbrev pub rolled : {E A : Type 0} → Ledger E → Outcome (Ledger E) A → Outcome (Ledger E) A
rolled w (done a w') = done a w'
rolled w (raised x w') = raised x (record w { env = w'.env; next_failure_id = w'.next_failure_id })

-- `except RedisError` around XDEL.
abbrev pub swallow_redis : {S : Type 0} → Outcome S (Unit {0}) → Outcome S (Unit {0})
swallow_redis (raised (redis_error gone) s) = done tt s
swallow_redis (raised x s) = raised x s
swallow_redis (done u s) = done tt s

-- The services, what other workers commit to the intents before a statement reads them, and to all the
-- tables before a session, and the letter.
pub record Routing (E : Type 0) : Type 0 where
  pub svc : Services E
  pub post : Post E
  pub elsewhere : E → List Intent → List Intent
  pub meanwhile : Ledger E → Ledger E
  pub letter : Letter

module _ {E : Type 0} (routing : Routing E) where
  open routing use {svc, post, elsewhere, meanwhile, letter}

  abbrev pub in_routing : {A : Type 0} → Action (Ledger E) A → Action (Ledger E) A
  in_routing m w = rolled (meanwhile w) (m (meanwhile w))

  abbrev pub statement : Action (Ledger E) (Unit {0})
  statement = in_env (ask svc.statement)

  abbrev truncated_error : String
  truncated_error = str_take 8000 letter.last_error

  unfoldable pub coerce_jsonb_str : String → String
  coerce_jsonb_str text =
      if str_eq text "" then "null" else if post.is_json text then text else post.dumps text

  unfoldable pub log_row : ℕ → ℕ → LogRow
  log_row fid now = record {
    failure_id = fid;
    stream_name = letter.stream;
    group_name = letter.group;
    original_message_id = letter.message_id;
    deadletter_stream = deadletter_stream letter.stream;
    event_id = letter.event_id;
    consumer_name = letter.consumer_name;
    failure_count = letter.failure_count;
    last_error = truncated_error;
    payload_excerpt = coerce_jsonb_str letter.payload_excerpt;
    routed_at = now;
    redis_message_id = none;
    routed_at_redis = none;
  }

  -- The sequence moves on also where the row is there.
  abbrev next_id : Ledger E → Ledger E
  next_id w = record w { next_failure_id = suc w.next_failure_id }

  abbrev pub insert_missing_letter : Option LogRow → Action (Ledger E) LogRow
  insert_missing_letter (some l) w = done l (next_id w)
  insert_missing_letter none w =
      let l = log_row w.next_failure_id w.ctx.now in
      done l (record (next_id w) { log = w.log ++ l ∷ [] })

  -- INSERT … ON CONFLICT (…) DO UPDATE SET failure_count = failure_count RETURNING …
  unfoldable pub insert_letter : Action (Ledger E) LogRow
  insert_letter w =
      insert_missing_letter (find_letter letter.stream letter.group letter.message_id w.log) w

  -- Step 1.
  unfoldable pub log_letter : Action (Ledger E) LogRow
  log_letter = in_routing (do statement; l ← insert_letter; statement; pure l)

  module _ (fid : ℕ) where
    -- A SELECT of the index, or of the log, in the session at hand.
    abbrev pub reading : {A : Type 0} → (Ledger E → A) → Action (Ledger E) A
    reading f = do statement; (λ w. done (f w) w)

    -- `except RedisError: "0-0"`, and no last entry.
    abbrev pub bound_of : Outcome (Ledger E) (Option RedisId) → Outcome (Ledger E) RedisId
    bound_of (raised (redis_error gone) w) = done zero_id w
    bound_of (raised x w) = raised x w
    bound_of (done none w) = done zero_id w
    bound_of (done (some rid) w) = done rid w

    unfoldable pub capture_redis_lower_bound : Action (Ledger E) RedisId
    capture_redis_lower_bound w =
        bound_of (in_env (ask (svc.xinfo_stream (deadletter_stream letter.stream))) w)

    -- XDEL, whose RedisError is swallowed.
    unfoldable pub xdel : RedisId → Action (Ledger E) (Unit {0})
    xdel rid w = swallow_redis (in_env (ask (post.xdel (deadletter_stream letter.stream) rid)) w)

    abbrev deadletter_record : RedisId → AuditRecord
    deadletter_record rid = record {
      operation = "stream.deadletter";
      target_schema = "streams";
      target_table = "deadletter_log";
      target_pk = field "failure_id" (num fid) end;
      before = none;
      after = none;
      metadata = field "event_id" (str letter.event_id) (
          field "failure_id" (num fid) (
            field "stream_name" (str letter.stream) (
              field "group_name" (str letter.group)
                (field "redis_message_id" (str (post.to_text rid)) end))));
      ingestion_run_id = none;
    }

    -- Our XADD is taken back if the winner's is another one.
    abbrev pub take_back : Bool → RedisId → Action (Ledger E) (Unit {0})
    take_back false rid = pure tt
    take_back true rid = do
      statement
      to_ledger (λ w. record w { index = delete_index fid rid w.index })
      xdel rid

    -- `assert winner_rid is not None` comes after the commit.
    abbrev pub lost : Bool → RedisId → Option RedisId → Action (Ledger E) RedisId
    lost ours rid none = do statement; raise other_error
    lost ours rid (some winner) = do
      take_back (ours && not (rid_eq winner rid)) rid
      statement
      pure winner

    -- By the row count of the UPDATE.
    abbrev pub after_update : Bool → Bool → RedisId → Action (Ledger E) RedisId
    after_update true ours rid = do
      to_ledger (routed fid rid)
      audit (deadletter_record rid)
      statement
      pure rid
    after_update false ours rid = do
      winner ← reading (λ w. select_routed fid w.log)
      lost ours rid winner

    -- `_step_4_update_log_and_audit`
    unfoldable pub step_4 : RedisId → Bool → Action (Ledger E) RedisId
    step_4 rid ours = in_routing (do statement; (λ w. after_update (marks fid w.log) ours rid w))

    -- The index row, which raises if the failure has one.
    unfoldable pub insert_index_row : RedisId → Action (Ledger E) (Unit {0})
    insert_index_row rid w =
        if in_log fid w.log && not (conflicts fid w.index)
        then done tt (indexed fid rid w)
        else raised sqlalchemy_error w

    -- `except SQLAlchemyError` around the INSERT: false.
    abbrev pub index_and_release : Outcome (Ledger E) (Unit {0}) → Outcome (Ledger E) Bool
    index_and_release (raised sqlalchemy_error w) = done false w
    index_and_release (raised x w) = raised x w
    index_and_release (done u w) = (do statement; to_ledger (released fid); statement; pure true) w

    abbrev pub indexing : RedisId → Action (Ledger E) Bool
    indexing rid w = index_and_release ((do statement; insert_index_row rid) w)

    -- The winner of the race, from a session of its own; without one the exception is raised again.
    abbrev pub with_winner : Option RedisId → Action (Ledger E) RedisId
    with_winner none = raise sqlalchemy_error
    with_winner (some winner) = step_4 winner false

    abbrev pub after_indexing : RedisId → Bool → Action (Ledger E) RedisId
    after_indexing rid true = step_4 rid true
    after_indexing rid false = do
      xdel rid
      winner ← in_routing (reading (λ w. find_index fid w.index))
      with_winner winner

    abbrev xadd_fields : Entries
    xadd_fields =
        ("event_id", letter.event_id)
        ∷ ("failure_id", post.fid_str fid)
        ∷ ("stream_name", letter.stream)
        ∷ ("group_name", letter.group)
        ∷ ("consumer_name", letter.consumer_name)
        ∷ ("failure_count", post.to_str letter.failure_count)
        ∷ ("last_error", truncated_error)
        ∷ ("payload", letter.payload_excerpt)
        ∷ []

    abbrev pub xadd_letter : Action E RedisId
    xadd_letter = ask (post.xadd (deadletter_stream letter.stream) xadd_fields)

    unfoldable pub after_xadd : RedisId → Action (Ledger E) RedisId
    after_xadd rid = do indexed ← in_routing (indexing rid); after_indexing rid indexed

    -- Steps 3 to 6.
    unfoldable pub add_letter : Action (Ledger E) RedisId
    add_letter = do rid ← in_env xadd_letter; after_xadd rid

    abbrev pub complete : Action (Ledger E) RedisId → Action (Ledger E) (Option RoutingResult)
    complete m = do rid ← m; pure (some (routing_complete rid))

    -- `assert adoption.redis_message_id is not None`
    abbrev pub by_adoption : Option RedisId → Action (Ledger E) (Option RoutingResult)
    by_adoption none = raise other_error
    by_adoption (some rid) = pure (some (routing_reconciled_by_adoption rid))

    abbrev pub by_action :
        AdoptionAction → AdoptionResult → Action (Ledger E) (Option RoutingResult)
    by_action abort res = pure (some routing_aborted)
    by_action reconciled_by_us res = by_adoption res.redis_message_id
    by_action own res = complete add_letter

    -- `none` where the search for the orphan is out of fuel.
    abbrev pub after_adoption : Option AdoptionResult → Action (Ledger E) (Option RoutingResult)
    after_adoption none = pure none
    after_adoption (some res) = by_action res.action res

    -- Step 2.5.
    abbrev pub claim : RedisId → Claim E
    claim bound = record {
      to_int = post.to_int;
      to_text = post.to_text;
      svc = svc;
      elsewhere = elsewhere;
      stream = letter.stream;
      fid = fid;
      me = letter.owner_id;
      my_bound = bound;
    }

    unfoldable pub claim_intent : RedisId → Action (Ledger E) (Option AdoptionResult)
    claim_intent bound =
        in_routing (do adoption ← acquire_or_adopt_intent (claim bound); statement; pure adoption)

    -- Without a row of the index.
    unfoldable pub route_unindexed : Action (Ledger E) (Option RoutingResult)
    route_unindexed = do
      bound ← capture_redis_lower_bound
      adoption ← claim_intent bound
      after_adoption adoption

    abbrev pub after_lookup : Option RedisId → Action (Ledger E) (Option RoutingResult)
    after_lookup none = route_unindexed
    after_lookup (some rid) = complete (step_4 rid false)

    unfoldable pub route_logged : Action (Ledger E) (Option RoutingResult)
    route_logged = do rid ← in_routing (reading (λ w. find_index fid w.index)); after_lookup rid

  abbrev pub resume : ℕ → Option RedisId → Action (Ledger E) (Option RoutingResult)
  resume fid (some rid) = pure (some (routing_complete rid))
  resume fid none = route_logged fid

  unfoldable pub route_to_deadletter : Action (Ledger E) (Option RoutingResult)
  route_to_deadletter = do l ← log_letter; resume l.failure_id l.redis_message_id
