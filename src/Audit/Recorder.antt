-- ===== src/Audit/Recorder.antt =====
-- audit/recorder.py: the one gateway to `audit.events`. The table is the list of its rows, oldest
-- first. The Prometheus counter and the warning of the lenient mode are not modelled.
use aslan_core.Base.{
  ◌≡◌, refl, ℕ, String, Option, none, some, List, [], ◌∷◌, ◌++◌, if◌then◌else◌, is_none, ◌&&◌,
  Bool-cases, inl, inr,
}
use aslan_core.Action.{Action, pure, raise, done, state, Keeps}
use aslan_core.Result.{audit_missing_actor}
use aslan_core.Json.{Fields}
use aslan_core.Audit.Context.{Actor, Context, current_actor}

pub record AuditRecord : Type 0 where
  pub operation : String
  pub target_schema : String
  pub target_table : String
  pub target_pk : Fields
  pub before : Option Fields
  pub after : Option Fields
  pub metadata : Fields
  pub ingestion_run_id : Option ℕ

-- A row of `audit.events`: the columns of the actor, and those that come from the record.
pub record Event : Type 0 where
  pub actor_id : String
  pub actor_kind : String
  pub client_ip : Option String
  pub user_agent : Option String
  pub request_id : Option ℕ
  pub entry : AuditRecord

-- Called at the top of every mutation.
unfoldable pub assert_actor_or_strict_raise : {S : Type 0} → Context → Action S (Unit {0})
unfolding current_actor
assert_actor_or_strict_raise c =
    if c.audit_strict && is_none (current_actor c) then raise audit_missing_actor else pure tt

pub assert_actor-Keeps :
    {S : Type 0} (Q : S → Type 0) (c : Context) → Keeps Q (assert_actor_or_strict_raise c)
unfolding assert_actor_or_strict_raise
assert_actor-Keeps Q c s q = elim (Bool-cases (c.audit_strict && is_none (current_actor c))) [
  | inl refused ↦ rw (refused, state) q
  | inr allowed ↦ rw (allowed, state) q
]

-- The parameters of the INSERT.
unfoldable pub event_of : Option Actor → AuditRecord → Event
event_of none r = record {
  actor_id = "system:unknown";
  actor_kind = "system";
  client_ip = none;
  user_agent = none;
  request_id = none;
  entry = r;
}
event_of (some a) r = record {
  actor_id = a.actor_id;
  actor_kind = a.actor_kind;
  client_ip = a.client_ip;
  user_agent = a.user_agent;
  request_id = a.request_id;
  entry = r;
}

pub entry-event_of : (o : Option Actor) (r : AuditRecord) → (event_of o r).entry ≡ r
unfolding event_of
entry-event_of none r = refl
entry-event_of (some a) r = refl

-- `audit.record`, on the table of events alone.
unfoldable pub record_event : Context → AuditRecord → Action (List Event) (Unit {0})
unfolding current_actor event_of
record_event c r events =
    if is_none (current_actor c) && c.audit_strict
    then raise audit_missing_actor events
    else done tt (events ++ event_of (current_actor c) r ∷ [])

-- The denormalised audit columns of a data row: the actor's, or NULL for each.
pub record AuditCols : Type 0 where
  pub actor_id : Option String
  pub actor_kind : Option String
  pub client_ip : Option String
  pub user_agent : Option String
  pub request_id : Option ℕ

unfoldable pub audit_cols : Context → AuditCols
unfolding current_actor
audit_cols c = elim (current_actor c) [
  | none ↦ record {
    actor_id = none;
    actor_kind = none;
    client_ip = none;
    user_agent = none;
    request_id = none;
  }
  | some a ↦ record {
    actor_id = some a.actor_id;
    actor_kind = some a.actor_kind;
    client_ip = a.client_ip;
    user_agent = a.user_agent;
    request_id = a.request_id;
  }
]
