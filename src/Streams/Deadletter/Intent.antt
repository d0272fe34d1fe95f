-- ===== src/Streams/Deadletter/Intent.antt =====
-- `acquire_or_adopt_intent` of streams/deadletter.py. `elsewhere` is what other transactions have
-- committed to the intents when a statement reads them; while the row of the failure is locked, they
-- leave the rows of the failure alone. Times are microseconds; now() is the time of the transaction.
-- The metrics are left out.
use aslan_core.Base.{
  ℕ, zero, suc, ◌+◌, String, Bool, true, false, Option, none, some, List, [], ◌∷◌, ◌++◌, str_eq,
  ltb, if◌then◌else◌,
}
use aslan_core.Action.{Action, done, raised, pure, raise, ◌>>=◌, ◌>>◌, put_back}
use aslan_core.Result.{sqlalchemy_error, stream_routing_contention}
use aslan_core.Json.{ℤ, pos, Fields, field, end, str, num}
use aslan_core.Audit.Context.{Context}
use aslan_core.Audit.Recorder.{AuditRecord, Event, record_event}
use aslan_core.Streams.Ids.{RedisId}
use aslan_core.Streams.Services.{Services}
use aslan_core.Streams.Deadletter.Orphan.{ask, find_orphan_in_deadletter_stream}
use aslan_core.Streams.Deadletter.Tables.{
  Intent, LogRow, IndexRow, find_intent, update_intent, delete_intent, in_log, insert_index,
  find_index, mark_routed,
}

-- What the session sees, and the surroundings.
pub record Ledger (E : Type 0) : Type 0 where
  pub ctx : Context
  pub intents : List Intent
  pub log : List LogRow
  -- The next value of the sequence of failure_id.
  pub next_failure_id : ℕ
  pub index : List IndexRow
  pub events : List Event
  pub env : E

pub data AdoptionAction : Type 0 where
  own : AdoptionAction
  reconciled_by_us : AdoptionAction
  abort : AdoptionAction

pub record AdoptionResult : Type 0 where
  pub action : AdoptionAction
  pub lower_bound : Option RedisId
  pub redis_message_id : Option RedisId

abbrev pub with_env : {E : Type 0} → Ledger E → E → Ledger E
with_env w e = record w { env = e }

abbrev pub in_env : {E A : Type 0} → Action E A → Action (Ledger E) A
in_env m w = put_back (with_env w) (m w.env)

abbrev with_events : {E : Type 0} → Ledger E → List Event → Ledger E
with_events w events = record w { events = events }

unfoldable pub audit : {E : Type 0} → AuditRecord → Action (Ledger E) (Unit {0})
audit r w = put_back (with_events w) (record_event w.ctx r w.events)

abbrev pub to_ledger : {E : Type 0} → (Ledger E → Ledger E) → Action (Ledger E) (Unit {0})
to_ledger f w = done tt (f w)

-- SET owner_heartbeat_at = now()
unfoldable pub heartbeat : ℕ → Intent → Intent
heartbeat now r = record r { owner_heartbeat_at = now }

-- `age_seconds < 60`: the column is not NULL.
unfoldable pub is_fresh : ℕ → Intent → Bool
is_fresh now r = ltb now (r.owner_heartbeat_at + 60000000)

-- The log row is updated, the intent deleted, and the id indexed.
unfoldable pub routed : {E : Type 0} → ℕ → RedisId → Ledger E → Ledger E
routed fid rid w = record w { log = mark_routed fid rid w.ctx.now w.log }

unfoldable pub released : {E : Type 0} → ℕ → Ledger E → Ledger E
released fid w = record w { intents = delete_intent fid w.intents }

unfoldable pub indexed : {E : Type 0} → ℕ → RedisId → Ledger E → Ledger E
indexed fid rid w = record w { index = insert_index fid rid w.index }

-- `to_text` writes an id as Redis does, and `fid`, `me`, `my_bound` and `stream` are the arguments.
-- The arguments of an acquisition, and the functions and services that it calls. `elsewhere` is what
-- other workers have committed to the intents before a statement reads them.
pub record Claim (E : Type 0) : Type 0 where
  pub to_int : String → Option ℤ
  pub to_text : RedisId → String
  pub svc : Services E
  pub elsewhere : E → List Intent → List Intent
  pub stream : String
  pub fid : ℕ
  pub me : String
  pub my_bound : RedisId

module _ {E : Type 0} (claim : Claim E) where
  open claim use {to_int, to_text, svc, elsewhere, stream, fid, me, my_bound}

  abbrev pub my_intent : ℕ → Intent
  my_intent now = record {
    failure_id = fid;
    stream_name = stream;
    intent_at = now;
    redis_lower_bound_id = my_bound;
    owner_id = me;
    owner_heartbeat_at = now;
  }

  -- A statement, which may raise.
  abbrev pub sql : Action (Ledger E) (Unit {0})
  sql = in_env (ask svc.statement)

  -- A statement that reads the intents: it sees what others have committed.
  abbrev pub sees : Ledger E → Ledger E
  sees w = record w { intents = elsewhere w.env w.intents }

  -- INSERT … ON CONFLICT (failure_id) DO NOTHING RETURNING failure_id: true if it returns a row.
  abbrev pub insert_missing : Option Intent → Action (Ledger E) Bool
  insert_missing (some r) w = done false w
  insert_missing none w =
      if in_log fid w.log
      then done true (record w { intents = w.intents ++ my_intent w.ctx.now ∷ [] })
      else raised sqlalchemy_error w

  unfoldable pub insert_intent : Action (Ledger E) Bool
  insert_intent w = insert_missing (find_intent fid (sees w).intents) (sees w)

  abbrev owned : RedisId → AdoptionResult
  owned bound = record { action = own; lower_bound = some bound; redis_message_id = none }

  -- SET owner_id = :owner, owner_heartbeat_at = now(), intent_at = now(), redis_lower_bound_id = :lb
  unfoldable pub replaced : ℕ → Intent → Intent
  replaced now r = record r {
    owner_id = me;
    owner_heartbeat_at = now;
    intent_at = now;
    redis_lower_bound_id = my_bound;
  }

  -- The row is locked, so that the update is of what was read.
  unfoldable pub change_intent : (ℕ → Intent → Intent) → Ledger E → Ledger E
  change_intent f w = record w { intents = update_intent fid (f w.ctx.now) w.intents }

  abbrev orphan_record : String → Fields → AuditRecord
  orphan_record operation metadata = record {
    operation = operation;
    target_schema = "streams";
    target_table = "deadletter_log";
    target_pk = field "failure_id" (num fid) end;
    before = none;
    after = none;
    metadata = metadata;
    ingestion_run_id = none;
  }

  abbrev prior : Intent → Fields
  prior r = field "via" (str "stale_adoption") (
      field "prior_owner" (str r.owner_id)
        (field "prior_lower_bound" (str (to_text r.redis_lower_bound_id)) end))

  -- From the UPDATE of the log row on.
  unfoldable pub settle_orphan : Intent → RedisId → Action (Ledger E) AdoptionResult
  settle_orphan r canonical = do
    sql
    to_ledger (routed fid canonical)
    sql
    to_ledger (released fid)
    audit (
        orphan_record "stream.deadletter_orphan_reconciled"
          (field "redis_message_id" (str (to_text canonical)) (prior r)))
    pure (record {
      action = reconciled_by_us;
      lower_bound = none;
      redis_message_id = some canonical;
    })

  -- `canonical_proxy.scalar_one()` raises if there is no row.
  abbrev pub with_canonical : Intent → Option RedisId → Action (Ledger E) AdoptionResult
  with_canonical r none = raise sqlalchemy_error
  with_canonical r (some canonical) = settle_orphan r canonical

  -- 2c-i. Prior owner's XADD landed.
  unfoldable pub reconcile_orphan : Intent → RedisId → Action (Ledger E) AdoptionResult
  reconcile_orphan r rid = do
    sql
    to_ledger (indexed fid rid)
    sql
    (λ w. with_canonical r (find_index fid w.index) w)

  -- 2c-ii. Prior owner's XADD never landed.
  unfoldable pub replace_and_own : Intent → Action (Ledger E) AdoptionResult
  replace_and_own r = do
    sql
    to_ledger (change_intent replaced)
    audit (orphan_record "stream.deadletter_orphan_lost" (field "action" (str "lost") (prior r)))
    pure (owned my_bound)

  -- `none` where the search is out of fuel.
  abbrev pub after_search :
      Intent → Option (Option RedisId) → Action (Ledger E) (Option AdoptionResult)
  after_search r none = pure none
  after_search r (some none) = do result ← replace_and_own r; pure (some result)
  after_search r (some (some rid)) = do result ← reconcile_orphan r rid; pure (some result)

  unfoldable pub adopt_stale : Intent → Action (Ledger E) (Option AdoptionResult)
  adopt_stale r = do
    orphan ←
        in_env (
          find_orphan_in_deadletter_stream to_int svc stream r.redis_lower_bound_id (pos fid) 10000)
    after_search r orphan

  unfoldable pub refresh : Intent → Action (Ledger E) (Option AdoptionResult)
  refresh r = do
    sql
    to_ledger (change_intent heartbeat)
    pure (some (owned r.redis_lower_bound_id))

  unfoldable pub adopt : Intent → Action (Ledger E) (Option AdoptionResult)
  adopt r w =
      if str_eq r.owner_id me
      then refresh r w
      else if is_fresh w.ctx.now r
      then done (some (record { action = abort; lower_bound = none; redis_message_id = none })) w
      else adopt_stale r w

  abbrev pub on_existing :
      Action (Ledger E) (Option AdoptionResult)
      → Option Intent
      → Action (Ledger E) (Option AdoptionResult)
  on_existing retry none = retry
  on_existing retry (some r) = adopt r

  -- SELECT … FOR UPDATE
  unfoldable pub lock_intent :
      Action (Ledger E) (Option AdoptionResult) → Action (Ledger E) (Option AdoptionResult)
  lock_intent retry w = on_existing retry (find_intent fid (sees w).intents) (sees w)

  abbrev pub after_insert :
      Action (Ledger E) (Option AdoptionResult) → Bool → Action (Ledger E) (Option AdoptionResult)
  after_insert retry true = pure (some (owned my_bound))
  after_insert retry false = do sql; lock_intent retry

  abbrev pub one_attempt :
      Action (Ledger E) (Option AdoptionResult) → Action (Ledger E) (Option AdoptionResult)
  one_attempt retry = do sql; inserted ← insert_intent; after_insert retry inserted

  -- `left` is 3 - `_attempt`.
  unfoldable pub acquire_or_adopt : ℕ → Action (Ledger E) (Option AdoptionResult)
  acquire_or_adopt zero = one_attempt (raise (stream_routing_contention fid 4))
  acquire_or_adopt (suc left) = one_attempt (acquire_or_adopt left)

  abbrev pub acquire_or_adopt_intent : Action (Ledger E) (Option AdoptionResult)
  acquire_or_adopt_intent = acquire_or_adopt 3
